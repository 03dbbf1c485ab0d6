-- ===== src/Agent/Tunnel.antt =====
-- portal_agent/handler.go: WebsocketHandler.ServeHTTP, which joins the connection of a websocketProxy,
-- taken over by Hijack, to one that it opens to the service. Its goroutines take turns as those of
-- Server.Tunnel, with whose state they share the two loops; the far connection is remoteConn.
pub mod Leak
use http_portal.Base.{
  ℕ, String, Bool, true, false, not, Option, none, some, List, [], ◌∷◌, ◌++◌, ◌⊎◌, inl, inr,
  if◌then◌else◌, Text, ascii,
}
use http_portal.Core.Errors.{Error, error_text}
use http_portal.Server.Clients.{Step, done, panics}
use http_portal.Server.Tunnel.{
  Tunnel, opened, Copied, Event, copy_up, copy_down, watch, step_up, fire, is_over,
}
use http_portal.Agent.Websocket.{write_error_response}

-- The function's own loop, which copies from remoteConn, and its end.
unfoldable pub step_down : Copied → Tunnel → Step Tunnel
unfolding fire is_over
step_down c t =
    if not t.downward
    then done t
    else if is_over c
    then fire (record t { down = t.down ++ c.bytes; downward = false })
    else done (record t { down = t.down ++ c.bytes })

-- The goroutine that waits for the end of the request's context (`ended`), where it closes
-- remoteConn, or of a copy, where it returns.
unfoldable pub step_watch : Bool → Tunnel → Step Tunnel
step_watch ended t =
    if not t.watching
    then done t
    else if ended
    then done (record t { watching = false; far_closed = true })
    else if t.broken
    then done (record t { watching = false })
    else done t

unfoldable pub step : Event → Tunnel → Step Tunnel
step (copy_up c) t = step_up c t
step (copy_down c) t = step_down c t
step (watch ended) t = step_watch ended t

unfoldable pub run : List Event → Tunnel → Step Tunnel
run [] t = done t
run (e ∷ more) t = elim (step e t) [ panics p ↦ panics p | done t' ↦ run more t' ]

-- How ServeHTTP goes on: with what it writes back for an error, or to its goroutines.
pub data Joined : Type 0 where
  written_back : Text → Joined
  joined : Tunnel → Joined

-- ServeHTTP up to its goroutines: the error of Hijack, of dialRemote and of clientHandshake.
unfoldable pub join_service : Option Error → Option Error → Option Error → Step Joined
join_service (some e) dial handshake = panics "Hijack failed"
join_service none (some e) handshake = done (written_back (write_error_response (ascii "502") e))
join_service none none (some e) = done (written_back (write_error_response (ascii "502") e))
join_service none none none = done (joined opened)
