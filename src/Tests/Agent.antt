-- ===== src/Tests/Agent.antt =====
-- portal/portal.go: heartbeatLoop at concrete inputs.
use http_portal.Base.{◌*◌, ◌≡◌, refl, false, some, [], ◌∷◌, arith}
use http_portal.Core.Errors.{opaque, second}
use http_portal.Portal.Agent.{
  hb_not_connect, hb_ok, hb_error, Loop, Network, no_response, recover_heartbeat, request_status,
  heartbeat, tick, heartbeat_loop, heartbeat_interval,
}
use http_portal.Portal.Agent.Machine.{IsSteady, heartbeat_loop-IsSteady}
use http_portal.Portal.Agent.Recovery.{up_tick, three_ticks_recover}

-- The state in which heartbeatLoop starts: logged in, with no transfer yet.
abbrev logged_in : Loop
logged_in = record {
  portal = record { status = hb_ok; last_transfer = 0; conns = 1; closes = 0 };
  failed_time = 0;
  interval = heartbeat_interval;
  timer = heartbeat_interval;
}

-- Four failures, and the connection still thought to be open.
abbrev failing : Loop
failing = record {
  portal = record { status = hb_error; last_transfer = 0; conns = 1; closes = 0 };
  failed_time = 4;
  interval = heartbeat_interval;
  timer = heartbeat_interval;
}

-- A closed connection, with four failures counted.
abbrev closed : Loop
closed = record {
  portal = record { status = hb_not_connect; last_transfer = 0; conns = 1; closes = 0 };
  failed_time = 4;
  interval = second;
  timer = second;
}

abbrev silent : Network
silent = record {
  dial = some (opaque "refused");
  login_reaction = no_response (opaque "deadline exceeded");
  beat_reaction = no_response (opaque "deadline exceeded");
  stopped = false;
}

-- The fifth failure in a row closes the connection.
fifth_failure_run :
    let l = tick (20 * second) silent failing in
    (l.portal.status ≡ hb_not_connect)
    × (l.portal.closes ≡ 1)
    × (l.failed_time ≡ 0)
    × (l.interval ≡ second)
unfolding tick heartbeat recover_heartbeat request_status
fifth_failure_run = (refl, refl, refl, refl)

failing-IsSteady : IsSteady failing
failing-IsSteady = record {
  few_failures = omega arith;
  ok_reset = λ e. grind arith;
  slow = λ e. refl;
  fast = λ e. grind arith;
}

closed-IsSteady : IsSteady closed
closed-IsSteady = record {
  few_failures = omega arith;
  ok_reset = λ e. grind arith;
  slow = λ e. grind arith;
  fast = λ e. refl;
}

heartbeat_loop-IsSteady_example :
    IsSteady (heartbeat_loop ((20 * second, silent) ∷ (21 * second, silent) ∷ []) failing)
heartbeat_loop-IsSteady_example =
    heartbeat_loop-IsSteady ((20 * second, silent) ∷ (21 * second, silent) ∷ []) failing
      failing-IsSteady

three_ticks_recover_example :
    (up_tick (12 * second) (up_tick (11 * second) (up_tick (10 * second) closed))).portal.status
    ≡ hb_ok
three_ticks_recover_example =
    three_ticks_recover (10 * second) (11 * second) (12 * second) closed closed-IsSteady
      (omega arith) (omega arith) (omega arith)
