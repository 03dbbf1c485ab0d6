-- ===== src/Portal/Receive.antt =====
-- portal/portal.go: receive, the goroutine that reads the agent's connection, and Run and Stop.
-- The connection is the one that connect has just opened: that a later connect replaces it under a
-- loop that still runs is left out. The goroutines httpRequest that it starts are those of
-- Portal.Exchange; `started` lists them.
pub mod Ending
use http_portal.Base.{
  ℕ, zero, suc, String, Bool, true, false, Option, none, some, List, [], ◌∷◌, ◌++◌, if◌then◌else◌,
  eqb,
}
use http_portal.Core.Errors.{Error, is_close, calc_delay}
use http_portal.Core.Messages.{RpcHeader, Message, HttpRequest}
use http_portal.Core.Conn.{Conn, Outcome, ok, err, panic}
use http_portal.Core.Wire.{Codec, receive}
use http_portal.Core.Receiver.{Receiver}
use http_portal.Portal.Service.{
  get_msg, process_msg, Processed, starts, handed_over, unsupported, panics,
}
use http_portal.Portal.Agent.{
  LocalPortal, Loop, Network, Reaction, hb_not_connect, connect, login, heartbeat_loop,
  heartbeat_interval,
}

-- What the loop works on.
pub record Reading : Type 0 where
  pub conn : Conn
  pub receiver : Receiver (RpcHeader × Message)
  pub started : List (RpcHeader × HttpRequest)

-- What a round meets: the buffer of the pool, whether the portal is stopped before Receive and
-- behind it.
pub record Turn : Type 0 where
  pub pool : List ℕ
  pub stopped_before : Bool
  pub stopped : Bool

pub data Round : Type 0 where
  again : ℕ → Reading → Round
  leaves : Reading → Round
  crashes : String → Round

-- The loop's body behind processMsg: its error is only logged.
processed : ℕ → Processed → Reading → Round
processed delay (starts h q) s = again delay (record s { started = s.started ++ (h, q) ∷ [] })
processed delay (handed_over e r) s = again delay (record s { receiver = r })
processed delay (unsupported e) s = again delay s
processed delay (panics p) s = crashes p

unfoldable pub received : Turn → ℕ → Reading → Outcome (RpcHeader × Message) × Conn → Round
unfolding processed
received t delay s (err e, conn) =
    if t.stopped
    then leaves (record s { conn = conn })
    else if is_close e
    then leaves (record s { conn = conn })
    else again (calc_delay delay) (record s { conn = conn })
received t delay s (panic p, conn) = crashes p
received t delay s (ok (h, m), conn) =
    processed delay (process_msg h m s.receiver) (record s { conn = conn })

-- One round of the loop.
unfoldable pub round : Codec → Turn → ℕ → Reading → Round
round codec t delay s =
    if t.stopped_before
    then leaves s
    else received t delay s (receive codec none get_msg true t.pool s.conn)

-- How the loop ends.
pub data Ended : Type 0 where
  left : Reading → Ended
  crashed : String → Ended

-- receive on fuel: `none` means that the fuel ran out. `turns` says what each round meets.
unfoldable pub receive_loop : Codec → ℕ → (ℕ → Turn) → ℕ → Reading → Option Ended
receive_loop codec zero turns delay s = none
receive_loop codec (suc fuel) turns delay s = elim (round codec (turns fuel) delay s) [
  | crashes p ↦ some (crashed p)
  | leaves s' ↦ some (left s')
  | again delay' s' ↦ receive_loop codec fuel turns delay' s'
]

-- NewLocalPortal, of what Portal.Agent keeps.
abbrev pub new_local_portal : LocalPortal
new_local_portal = record { status = hb_not_connect; last_transfer = 0; conns = 0; closes = 0 }

logged_in : Option Error × LocalPortal → List (ℕ × Network) → LocalPortal
logged_in (some e, p) ticks = p
logged_in (none, p) ticks =
    (heartbeat_loop ticks (record {
      portal = p;
      failed_time = 0;
      interval = heartbeat_interval;
      timer = heartbeat_interval;
    })).portal

connected : Option Error × LocalPortal → Reaction → List (ℕ × Network) → LocalPortal
unfolding logged_in
connected (some e, p) reaction ticks = p
connected (none, p) reaction ticks = logged_in (login reaction p) ticks

-- Run, over these rounds of heartbeatLoop.
unfoldable pub run : Option Error → Reaction → List (ℕ × Network) → LocalPortal → LocalPortal
unfolding connected
run dial reaction ticks p = connected (connect dial p) reaction ticks

-- Stop: there is no connection to close before connect has opened one.
unfoldable pub stop : LocalPortal → Option LocalPortal
stop p = if eqb p.conns 0 then none else some (record p { closes = suc p.closes })
