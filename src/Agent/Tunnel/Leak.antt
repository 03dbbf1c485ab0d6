-- ===== src/Agent/Tunnel/Leak.antt =====
-- portal_agent/handler.go: the connection to the service behind WebsocketHandler.ServeHTTP.
use http_portal.Base.{◌≡◌, refl, Bool, true, false, not, List, [], ◌∷◌, ◌++◌, if◌then◌else◌}
use http_portal.Server.Clients.{Step, done}
use http_portal.Server.Tunnel.{Tunnel, Copied, Event, copy_up, copy_down, watch, step_up, is_over}
use http_portal.Server.Tunnel.Closing.{fire_lem}
use http_portal.Agent.Tunnel.{step, step_down, step_watch, run}

-- The request's context is not done.
abbrev pub GoesOn : List Event → Type 0
GoesOn [] = Unit
GoesOn (watch ended ∷ more) = (ended ≡ false) × GoesOn more
GoesOn (_ ∷ more) = GoesOn more

-- The state behind a step, which is no panic: remoteConn is open, as it was, and the channel closed
-- where the Once has fired.
abbrev IsOpen : Tunnel → Type 0
IsOpen t = (t.far_closed ≡ false) × (t.broken ≡ t.fired)

abbrev Keeps : Step Tunnel → Type 0
Keeps r = (t : Tunnel) × (r ≡ done t) × IsOpen t

if-Keeps : (b : Bool) (x y : Step Tunnel) → Keeps x → Keeps y → Keeps (if b then x else y)
if-Keeps true x y h k = h
if-Keeps false x y h k = k

up-Keeps : (c : Copied) (t : Tunnel) → IsOpen t → Keeps (step_up c t)
unfolding step_up
up-Keeps c t (far, once) =
    if-Keeps (not t.upward) _ _ (t, refl, (far, once))
      (if-Keeps (is_over c) _ _
        (_, fire_lem (record t { up = t.up ++ c.bytes; upward = false }) once, (far, refl))
        (record t { up = t.up ++ c.bytes }, refl, (far, once)))

down-Keeps : (c : Copied) (t : Tunnel) → IsOpen t → Keeps (step_down c t)
unfolding step_down
down-Keeps c t (far, once) =
    if-Keeps (not t.downward) _ _ (t, refl, (far, once))
      (if-Keeps (is_over c) _ _
        (_, fire_lem (record t { down = t.down ++ c.bytes; downward = false }) once, (far, refl))
        (record t { down = t.down ++ c.bytes }, refl, (far, once)))

watch-Keeps : (t : Tunnel) → IsOpen t → Keeps (step_watch false t)
unfolding step_watch
watch-Keeps t (far, once) =
    if-Keeps (not t.watching) _ _ (t, refl, (far, once))
      (if-Keeps t.broken _ _ (record t { watching = false }, refl, (far, once))
        (t, refl, (far, once)))

step-Keeps : (e : Event) (t : Tunnel) → GoesOn (e ∷ []) → IsOpen t → Keeps (step e t)
unfolding step
step-Keeps (copy_up c) t on o = up-Keeps c t o
step-Keeps (copy_down c) t on o = down-Keeps c t o
step-Keeps (watch ended) t on o = rw (on.0) (watch-Keeps t o)

first_of : (e : Event) (more : List Event) → GoesOn (e ∷ more) → GoesOn (e ∷ []) × GoesOn more
first_of (copy_up c) more on = (tt, on)
first_of (copy_down c) more on = (tt, on)
first_of (watch ended) more on = ((on.0, tt), on.1)

-- As long as the request's context is not done, no turn of the goroutines of ServeHTTP closes the
-- connection to the service, also where both copies have ended and the function has returned; and
-- none panics.
pub service_left_open :
    (events : List Event) (s : Tunnel)
    → GoesOn events
    → s.far_closed ≡ false
    → s.broken ≡ s.fired
    → (t : Tunnel) × (run events s ≡ done t) × (t.far_closed ≡ false)
unfolding run
service_left_open [] s on far once = (s, refl, far)
service_left_open (e ∷ more) s on far once =
    let (here, later) = first_of e more on in
    let (s1, goes, (far1, once1)) = step-Keeps e s here (far, once) in
    let (t, ends, left) = service_left_open more s1 later far1 once1 in
    (t, rw (run, goes) ends, left)
