-- ===== src/Tests/Senders.antt =====
-- core/net.go: two goroutines in Send on one connection, at a concrete schedule.
use http_portal.Base.{ℕ, ◌+◌, ◌≡◌, ◌≤◌, ◌⊎◌, refl, false, none, some, List, [], ◌∷◌, string_eq}
use http_portal.Core.Messages.{http_response}
use http_portal.Core.Conn.{Conn, ok, write}
use http_portal.Core.Wire.Stream.{Sending}
use http_portal.Core.Wire.Senders.{before, run_turns}
use http_portal.Core.Wire.Senders.Frame.{Same, Framed, one_by_one}
use http_portal.Core.Wire.Senders.Once.{occurs, written}
use http_portal.Core.Wire.Senders.Serial.{run_turns-serial}
use http_portal.Tests.Codec.{small_codec}

abbrev quiet_wire : Conn
quiet_wire = record { inbox = []; outbox = []; writes = []; deadline = none; closed = false }

abbrev two_senders : ℕ → Sending
two_senders i = record {
  deadline = some (9 + i);
  header = record { method = "http"; error = ""; seq = i };
  message = http_response (record { status = 200; header = []; body = []; not_finish = false });
}

-- Both are at the lock, the second one gets it, and the first one waits until it is free.
abbrev in_turns : List ℕ
in_turns = 0 ∷ 1 ∷ 1 ∷ 0 ∷ 1 ∷ 0 ∷ 1 ∷ 0 ∷ 1 ∷ []

in_turns_run : (run_turns small_codec two_senders in_turns (before quiet_wire)).released ≡ 1 ∷ []
unfolding run_turns write
in_turns_run = refl

-- The second Send has ended, and has reset the deadline of the first one, which has the lock and has
-- still to write.
deadline_lost :
    let s = run_turns small_codec two_senders in_turns (before quiet_wire) in
    (s.holder ≡ some 0) × (s.conn.deadline ≡ none)
unfolding run_turns write
deadline_lost = (refl, refl)

run_turns-serial_example :
    let s = run_turns small_codec two_senders in_turns (before quiet_wire) in
    let ran = one_by_one small_codec two_senders s.released quiet_wire in
    (((s.holder ≡ none) × Same s.conn ran)
      ⊎ ((k : ℕ) × (h : List ℕ) × (b : List ℕ) × (s.holder ≡ some k)
          × Framed small_codec (two_senders k) h b
          × (Same s.conn ran ⊎ (((write h ran).0 ≡ ok tt) × Same s.conn (write h ran).1))))
    × (occurs 1 s.released ≤ 1)
    × (written (s.stages 1) ≤ occurs 1 s.released)
run_turns-serial_example = run_turns-serial small_codec two_senders in_turns quiet_wire 1
