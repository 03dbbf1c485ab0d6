-- ===== src/Tests/Tunnel.antt =====
-- portal_server/proxy_server.go and portal_agent/handler.go: the two ends of a websocket, at concrete
-- inputs.
use http_portal.Base.{◌≡◌, refl, true, false, none, some, List, [], ◌∷◌, ◌++◌, ◌⊎◌}
use http_portal.Core.Errors.{opaque}
use http_portal.Server.Clients.{done}
use http_portal.Server.Tunnel.{
  Tunnel, opened, Event, copy_up, copy_down, watch, run, step, step_up, step_down, fire, is_over,
}
use http_portal.Server.Tunnel.Closing.{tunnel_closes}
use http_portal.Agent.Tunnel as Agent
use http_portal.Agent.Tunnel.Leak.{service_left_open}

-- Bytes in both directions, then an error on the way up.
abbrev broken_up : List Event
broken_up =
    copy_up (record { bytes = 1 ∷ 2 ∷ []; failure = none })
    ∷ copy_down (record { bytes = 3 ∷ []; failure = none })
    ∷ copy_up (record { bytes = 4 ∷ []; failure = some (opaque "reset") })
    ∷ []

run_broken :
    run broken_up opened
    ≡ done (record opened {
      up = 1 ∷ 2 ∷ 4 ∷ [];
      down = 3 ∷ [];
      upward = false;
      fired = true;
      broken = true;
    })
unfolding run step step_up step_down fire is_over
run_broken = refl

tunnel_closes_example :
    (t : Tunnel) × (run broken_up opened ≡ done t)
    × (t.downward ≡ false → (t.near_closed ≡ true) × (t.far_closed ≡ true))
    × ((t.upward ≡ false) ⊎ (t.downward ≡ false)
        → (t' : Tunnel) × (run (broken_up ++ watch false ∷ []) opened ≡ done t')
          × (t'.far_closed ≡ true))
tunnel_closes_example = tunnel_closes broken_up

-- Both copies end, and the watcher.
abbrev all_over : List Event
all_over = broken_up ++ copy_down (record { bytes = []; failure = none }) ∷ watch false ∷ []

service_left_open_example :
    (t : Tunnel) × (Agent.run all_over opened ≡ done t) × (t.far_closed ≡ false)
service_left_open_example = service_left_open all_over opened (refl, tt) refl refl
