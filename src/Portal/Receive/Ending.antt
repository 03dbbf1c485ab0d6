-- ===== src/Portal/Receive/Ending.antt =====
-- portal/portal.go: the loop of receive ends.
use http_portal.Base.{
  ℕ, zero, suc, ◌<◌, ◌≡◌, refl, inl, inr, Bool, true, false, none, some, length, arith,
  if◌then◌else◌,
}
use http_portal.Core.Errors.{is_close}
use http_portal.Core.Messages.{RpcHeader, Message}
use http_portal.Core.Conn.{Conn, Outcome, ok, err, panic}
use http_portal.Core.Wire.{Codec}
use http_portal.Core.Wire.Progress.{Advances, receive-Advances}
use http_portal.Portal.Service.{
  get_msg, process_msg, Processed, starts, handed_over, unsupported, panics,
}
use http_portal.Portal.Receive.{
  Reading, Turn, Round, again, leaves, crashes, processed, received, round, Ended, left, crashed,
  receive_loop,
}

-- After the round the connection has less to give than before.
abbrev Smaller : ℕ → Round → Type 0
Smaller n (again delay s) = length s.conn.inbox < n
Smaller n (leaves s) = Unit {0}
Smaller n (crashes p) = Unit {0}

if-Smaller :
    (n : ℕ) (b : Bool) (x y : Round) → Smaller n x → Smaller n y → Smaller n (if b then x else y)
if-Smaller n true x y h k = h
if-Smaller n false x y h k = k

processed-Smaller :
    (n delay : ℕ) (p : Processed) (s : Reading)
    → length s.conn.inbox < n
    → Smaller n (processed delay p s)
unfolding processed
processed-Smaller n delay (starts h q) s less = less
processed-Smaller n delay (handed_over e r) s less = less
processed-Smaller n delay (unsupported e) s less = less
processed-Smaller n delay (panics p) s less = tt

received-Smaller :
    (t : Turn) (delay : ℕ) (s : Reading) (r : Outcome (RpcHeader × Message)) (conn : Conn)
    → Advances s.conn (r, conn)
    → Smaller (length s.conn.inbox) (received t delay s (r, conn))
unfolding received
received-Smaller t delay s (panic p) conn adv = tt
received-Smaller t delay s (err x) conn (inl less) =
    if-Smaller (length s.conn.inbox) t.stopped _ _ tt
      (if-Smaller (length s.conn.inbox) (is_close x) _ _ tt less)
received-Smaller t delay s (err x) conn (inr (y, same, closes)) =
    if-Smaller (length s.conn.inbox) t.stopped _ _ tt (ground arith)
received-Smaller t delay s (ok (h, m)) conn (inl less) =
    processed-Smaller (length s.conn.inbox) delay (process_msg h m s.receiver)
      (record s { conn = conn }) less
received-Smaller t delay s (ok (h, m)) conn (inr (y, same, closes)) = cc

module _ (codec : Codec) where
  round-Smaller :
      (t : Turn) (delay : ℕ) (s : Reading) → Smaller (length s.conn.inbox) (round codec t delay s)
  unfolding round
  round-Smaller t delay s =
      if-Smaller (length s.conn.inbox) t.stopped_before _ _ tt
        (received-Smaller t delay s _ _ (receive-Advances codec none get_msg true t.pool s.conn))

  -- The loop of receive ends, for any bytes and faults that the connection still has to give and any
  -- clock, pool and stop of the agent: a round takes at least one byte or fault off the connection, so
  -- that fuel above their number is enough.
  receive_loop_ends :
      (fuel : ℕ) (turns : ℕ → Turn) (delay : ℕ) (s : Reading)
      → length s.conn.inbox < fuel
      → (r : Ended) × (receive_loop codec fuel turns delay s ≡ some r)
  unfolding receive_loop
  receive_loop_ends zero turns delay s less = absurd (omega arith)
  receive_loop_ends (suc fuel) turns delay s less =
      by_round (round codec (turns fuel) delay s) refl (round-Smaller (turns fuel) delay s)
        (receive_loop_ends fuel turns)
    where
      by_round :
          (r : Round)
          → round codec (turns fuel) delay s ≡ r
          → Smaller (length s.conn.inbox) r
          → ((delay' : ℕ) (s' : Reading)
              → length s'.conn.inbox < fuel
              → (q : Ended) × (receive_loop codec fuel turns delay' s' ≡ some q))
          → (q : Ended) × (receive_loop codec (suc fuel) turns delay s ≡ some q)
      by_round (crashes p) e v ih = (crashed p, rw (e, receive_loop) refl)
      by_round (leaves s') e v ih = (left s', rw (e, receive_loop) refl)
      by_round (again delay' s') e v ih =
          let (q, run) = ih delay' s' (omega arith) in (q, rw (e, receive_loop) run)
