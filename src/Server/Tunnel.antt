-- ===== src/Server/Tunnel.antt =====
-- portal_server/proxy_server.go: transportDirect, which joins the browser's connection, taken over by
-- Hijack, to the one that an agent has opened for a websocket. Its three goroutines are steps on one
-- state, in any order: an event says which of them goes on and what its call returns.
pub mod Closing
use http_portal.Base.{
  ℕ, zero, suc, String, Bool, true, false, not, ◌||◌, Option, none, some, List, [], ◌∷◌, ◌++◌, ◌⊎◌,
  inl, inr, if◌then◌else◌, eqb, length,
}
use http_portal.Core.Errors.{Error, opaque, with_message}
use http_portal.Server.Clients.{Step, done, panics}

-- The near connection is the one that was taken over, the far one portalConn. `up` are the bytes
-- written to the far one, `down` those to the near one. `upward` and `downward` say which loops run,
-- `watching` whether the goroutine that closes portalConn still waits. `fired` is the state of the
-- sync.Once, `broken` whether the channel brokenConn is closed.
pub record Tunnel : Type 0 where
  pub up : List ℕ
  pub down : List ℕ
  pub upward : Bool
  pub downward : Bool
  pub watching : Bool
  pub fired : Bool
  pub broken : Bool
  pub near_closed : Bool
  pub far_closed : Bool

abbrev pub opened : Tunnel
opened = record {
  up = [];
  down = [];
  upward = true;
  downward = true;
  watching = true;
  fired = false;
  broken = false;
  near_closed = false;
  far_closed = false;
}

-- closeFunc: to close a closed channel is a panic.
unfoldable pub close_broken : Tunnel → Step Tunnel
close_broken t =
    if t.broken then panics "close of closed channel" else done (record t { broken = true })

-- once.Do(closeFunc)
unfoldable pub fire : Tunnel → Step Tunnel
unfolding close_broken
fire t = if t.fired then done t else close_broken (record t { fired = true })

-- What a call of WriteTo or ReadFrom moved, and its error.
pub record Copied : Type 0 where
  pub bytes : List ℕ
  pub failure : Option Error

-- The loop is left at an error, or where nothing was moved.
unfoldable pub is_over : Copied → Bool
is_over c = elim c.failure [ some e ↦ true | none ↦ eqb (length c.bytes) 0 ]

-- The goroutine that copies to portalConn.
unfoldable pub step_up : Copied → Tunnel → Step Tunnel
unfolding fire is_over
step_up c t =
    if not t.upward
    then done t
    else if is_over c
    then fire (record t { up = t.up ++ c.bytes; upward = false })
    else done (record t { up = t.up ++ c.bytes })

-- The deferred calls of Close.
closed : Step Tunnel → Step Tunnel
closed (panics p) = panics p
closed (done t) = done (record t { near_closed = true; far_closed = true })

-- The function's own loop, which copies from portalConn, and its end.
unfoldable pub step_down : Copied → Tunnel → Step Tunnel
unfolding fire is_over closed
step_down c t =
    if not t.downward
    then done t
    else if is_over c
    then closed (fire (record t { down = t.down ++ c.bytes; downward = false }))
    else done (record t { down = t.down ++ c.bytes })

-- The goroutine that waits for the end of the request's context (`ended`) or of a copy.
unfoldable pub step_watch : Bool → Tunnel → Step Tunnel
step_watch ended t =
    if not t.watching
    then done t
    else if ended || t.broken
    then done (record t { watching = false; far_closed = true })
    else done t

pub data Event : Type 0 where
  copy_up copy_down : Copied → Event
  watch : Bool → Event

unfoldable pub step : Event → Tunnel → Step Tunnel
step (copy_up c) t = step_up c t
step (copy_down c) t = step_down c t
step (watch ended) t = step_watch ended t

unfoldable pub run : List Event → Tunnel → Step Tunnel
run [] t = done t
run (e ∷ more) t = elim (step e t) [ panics p ↦ panics p | done t' ↦ run more t' ]

-- transportDirect up to its goroutines: whether the writer can be hijacked, and the error of Hijack.
unfoldable pub take_over : Bool → Option Error → (ℕ × Error) ⊎ Tunnel
take_over false e = inl (500, opaque "Hijack failed")
take_over true (some e) = inl (500, with_message e "Hijack failed")
take_over true none = inr opened
