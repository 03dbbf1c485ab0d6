-- ===== src/Portal/Agent/Machine.antt =====
-- portal/portal.go: the invariant of heartbeatLoop, and the moves of the status.
use http_portal.Base.{ℕ, ◌<◌, ◌≡◌, ◌⊎◌, List, [], ◌∷◌, string_eq, arith}
use http_portal.Core.Errors.{second}
use http_portal.Portal.Agent.{
  hb_not_connect, hb_not_login, hb_ok, hb_error, Loop, Network, tick, heartbeat_loop,
  heartbeat_interval,
}

-- Fewer than five failures are ever pending, none is while the status is hbOK, and the loop waits
-- a whole heartbeat interval exactly where the connection is thought to be logged in.
pub record IsSteady (l : Loop) : Type 0 where
  pub few_failures : l.failed_time < 5
  pub ok_reset : l.portal.status ≡ hb_ok → l.failed_time ≡ 0
  pub slow :
      (l.portal.status ≡ hb_ok) ⊎ (l.portal.status ≡ hb_error) → l.interval ≡ heartbeat_interval
  pub fast :
      (l.portal.status ≡ hb_not_login) ⊎ (l.portal.status ≡ hb_not_connect) → l.interval ≡ second

pub tick-IsSteady : (now : ℕ) (n : Network) (l : Loop) → IsSteady l → IsSteady (tick now n l)
unfolding tick
tick-IsSteady now n l v = ground arith

-- heartbeatLoop keeps its invariant over any timer firings and any behaviour of the network.
pub heartbeat_loop-IsSteady :
    (ticks : List (ℕ × Network)) (l : Loop) → IsSteady l → IsSteady (heartbeat_loop ticks l)
unfolding heartbeat_loop
heartbeat_loop-IsSteady [] l v = v
heartbeat_loop-IsSteady ((now, n) ∷ more) l v =
    heartbeat_loop-IsSteady more (tick now n l) (tick-IsSteady now n l v)
