-- ===== src/Core/Wire/Senders.antt =====
-- core/net.go: many goroutines in Send on one connection, each with a context that carries the lock of
-- this connection (CtxWithLock, CtxGetLock), as every Send of the server and of the agent's LocalPortal
-- has it. A turn takes one goroutine to its next call on the connection or on the lock; a schedule says
-- whose turns they are. `holder` is who has the lock, `released` who has given it back, in order.
pub mod Frame
pub mod Lock
pub mod Once
pub mod Serial
use http_portal.Base.{
  ℕ, String, Bool, true, false, Option, none, some, List, [], ◌∷◌, ◌++◌, eqb, ◌==◌, string_eq,
  if◌then◌else◌,
}
use http_portal.Core.Errors.{Error, opaque, wrap_error}
use http_portal.Core.Messages.{RpcHeader}
use http_portal.Core.Conn.{Conn, Outcome, ok, err, panic, write}
use http_portal.Core.Wire.{Codec, frame_head, marshal_body}
use http_portal.Core.Wire.Stream.{Sending}

-- Where a goroutine stands: before its Send, at mu.Lock, before the first and the second Write, each
-- with what it has still to write, before the deferred SetDeadline, and behind its Send.
pub data Stage : Type 0 where
  starts : Stage
  waits holds : List ℕ → List ℕ → Stage
  wrote_head : List ℕ → Stage
  leaves ended : Option Error → Stage
  crashed : String → Stage

pub record Senders : Type 0 where
  pub conn : Conn
  pub holder : Option ℕ
  pub stages : ℕ → Stage
  pub released : List ℕ

-- The goroutines before their Sends, on this connection.
abbrev pub before : Conn → Senders
before c = record { conn = c; holder = none; stages = λ i. starts; released = [] }

unfoldable pub move : ℕ → Stage → Senders → Senders
move i st s = record s { stages = λ j. if eqb j i then st else s.stages j }

-- conn.SetDeadline(d), where the context has one, and its deferred reset.
unfoldable pub set_until : Option ℕ → Conn → Conn
set_until none c = c
set_until (some d) c = record c { deadline = some d }

unfoldable pub reset_until : Option ℕ → Conn → Conn
reset_until none c = c
reset_until (some d) c = record c { deadline = none }

-- The marshalled header and message.
unfoldable pub marshalled : Codec → RpcHeader → Outcome (List ℕ) → Outcome (List ℕ) → Stage
marshalled codec h (ok head) (ok body) = waits (frame_head codec h (head ++ body)) (head ++ body)
marshalled codec h (ok head) (err e) = leaves (some (wrap_error e "marshal msg error"))
marshalled codec h (ok head) (panic p) = crashed p
marshalled codec h (err e) body = leaves (some (wrap_error e "marshal header error"))
marshalled codec h (panic p) body = crashed p

-- mu.Lock(), which blocks while another goroutine has the lock.
unfoldable pub acquire : ℕ → List ℕ → List ℕ → Option ℕ → Senders → Senders
unfolding move
acquire i h b none s = move i (holds h b) (record s { holder = some i })
acquire i h b (some j) s = s

-- The deferred mu.Unlock().
unfoldable pub release : ℕ → Stage → Senders → Senders
unfolding move
release i st s = move i st (record s { holder = none; released = s.released ++ i ∷ [] })

unfoldable pub after_head : ℕ → List ℕ → Outcome (Unit {0}) × Conn → Senders → Senders
unfolding move release
after_head i b (ok u, c) s = move i (wrote_head b) (record s { conn = c })
after_head i b (err e, c) s =
    release i (leaves (some (wrap_error e "write len error"))) (record s { conn = c })
after_head i b (panic p, c) s = release i (crashed p) (record s { conn = c })

unfoldable pub after_body : ℕ → Outcome (Unit {0}) × Conn → Senders → Senders
unfolding release
after_body i (ok u, c) s = release i (leaves none) (record s { conn = c })
after_body i (err e, c) s =
    release i (leaves (some (wrap_error e "write error"))) (record s { conn = c })
after_body i (panic p, c) s = release i (crashed p) (record s { conn = c })

-- One turn of the goroutine i, which stands there and sends x.
unfoldable pub turn_at : Codec → Sending → ℕ → Stage → Senders → Senders
unfolding move set_until reset_until marshalled acquire after_head after_body marshal_body
turn_at codec x i starts s =
    if x.header.method == ""
    then move i (ended (some (opaque "no method set"))) s
    else move i
        (marshalled codec x.header (codec.marshal_header x.header)
          (marshal_body codec (some x.message)))
        (record s { conn = set_until x.deadline s.conn })
turn_at codec x i (waits h b) s = acquire i h b s.holder s
turn_at codec x i (holds h b) s = after_head i b (write h s.conn) s
turn_at codec x i (wrote_head b) s = after_body i (write b s.conn) s
turn_at codec x i (leaves e) s =
    move i (ended e) (record s { conn = reset_until x.deadline s.conn })
turn_at codec x i (ended e) s = s
turn_at codec x i (crashed p) s = s

-- The turns of a schedule; the goroutine i sends `sends i`.
unfoldable pub run_turns : Codec → (ℕ → Sending) → List ℕ → Senders → Senders
unfolding turn_at
run_turns codec sends [] s = s
run_turns codec sends (i ∷ is) s =
    run_turns codec sends is (turn_at codec (sends i) i (s.stages i) s)
