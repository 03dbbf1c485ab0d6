-- ===== src/Portal/Session/Beats.antt =====
-- portal/portal.go: recoverHeartbeat, heartbeat and heartbeatLoop over the calls of Portal.Session.
pub mod Shadow
pub mod Simulation
use http_portal.Base.{
  ℕ, zero, suc, ◌+◌, ◌-◌, ◌*◌, ◌<◌, String, Bool, true, false, Option, none, some, List, [], ◌∷◌,
  if◌then◌else◌, ltb, leb,
}
use http_portal.Core.Errors.{Error, second}
use http_portal.Core.Conn.{Conn, Outcome, ok, err, panic}
use http_portal.Core.Wire.{Codec}
use http_portal.Portal.Agent.{
  Status, hb_not_connect, hb_not_login, hb_ok, hb_error, LocalPortal, heartbeat_interval, connect,
}
use http_portal.Portal.Session.{Session, Call, login, request_beat}

-- What one round of heartbeatLoop meets: the error of a dial, or the connection that it opens, the
-- calls of login and heartbeat, and isStop.
pub record Round : Type 0 where
  pub dial : Option Error
  pub fresh : Conn
  pub login_call : Call
  pub beat_call : Call
  pub stopped : Bool

-- The loop's own variables, and the time for which its timer was last reset.
pub record Beating : Type 0 where
  pub session : Session
  pub failed_time : ℕ
  pub interval : ℕ
  pub timer : ℕ

is_ok : Status → Bool
is_ok hb_ok = true
is_ok _ = false

-- The interval that follows a round.
interval_for : Status → ℕ
interval_for hb_ok = heartbeat_interval
interval_for hb_error = heartbeat_interval
interval_for _ = second * 1

close_conn : Session → Session
close_conn s = record s {
  portal = record s.portal { closes = s.portal.closes + 1 };
  conn = record s.conn { closed = true };
}

set_status : Status → Session → Session
set_status status s = record s { portal = record s.portal { status = status } }

count_failure : ℕ → Status → Session → ℕ → ℕ × Session
unfolding is_ok close_conn set_status
count_failure now status s failed =
    if is_ok status
    then (0, record s { portal = record s.portal { status = status; last_transfer = now } })
    else if leb 5 (failed + 1)
    then (0, set_status hb_not_connect (close_conn s))
    else (failed + 1, set_status status s)

counted : ℕ × Session → Beating
unfolding interval_for
counted (failed, s) = record {
  session = s;
  failed_time = failed;
  interval = interval_for s.portal.status;
  timer = interval_for s.portal.status;
}

-- The loop's body behind heartbeat.
beaten : ℕ → ℕ → Outcome Status × Session → Outcome Beating
unfolding count_failure counted
beaten now failed (ok status, s) = ok (counted (count_failure now status s failed))
beaten now failed (err e, s) = err e
beaten now failed (panic p, s) = panic p

reconnected : Option Error × LocalPortal → Conn → Session → Outcome Status × Session
reconnected (some e, p) c s = (ok hb_not_connect, record s { portal = p })
reconnected (none, p) c s = (ok hb_ok, record s { portal = p; conn = c })

relogged : Outcome (Unit {0}) × Session → Outcome Status × Session
relogged (ok u, s) = (ok hb_ok, s)
relogged (err e, s) = (ok hb_not_login, s)
relogged (panic p, s) = (panic p, s)

module _ (codec : Codec) (server_write : ℕ) (name : String) where
  recover_from : Status → Round → Session → Outcome Status × Session
  unfolding reconnected relogged
  recover_from hb_not_connect n s = reconnected (connect n.dial s.portal) n.fresh s
  recover_from hb_not_login n s = relogged (login codec server_write name n.login_call s)
  recover_from _ n s = (ok hb_ok, s)

  -- recoverHeartbeat
  unfoldable pub recover_heartbeat : Round → Session → Outcome Status × Session
  unfolding recover_from
  recover_heartbeat n s = recover_from s.portal.status n s

  beat_after : Round → Outcome Status × Session → Outcome Status × Session
  beat_after n (ok hb_ok, s) = request_beat codec server_write name n.stopped n.beat_call s
  beat_after n (ret, s) = (ret, s)

  -- heartbeat
  unfoldable pub heartbeat_once : Round → Session → Outcome Status × Session
  unfolding beat_after
  heartbeat_once n s = beat_after n (recover_heartbeat n s)

  -- One round of heartbeatLoop, its timer having fired at `now`.
  unfoldable pub tick : ℕ → Round → Beating → Outcome Beating
  unfolding beaten
  tick now n l =
      let last = l.session.portal.last_transfer in
      let beat = beaten now l.failed_time (heartbeat_once n l.session) in
      if ltb (now - last) l.interval
      then ok (record l { timer = last + l.interval - now })
      else beat

  -- heartbeatLoop over the times at which the timer fires.
  unfoldable pub heartbeat_loop : List (ℕ × Round) → Beating → Outcome Beating
  heartbeat_loop [] l = ok l
  heartbeat_loop ((now, n) ∷ more) l = elim (tick now n l) [
    | ok l' ↦ heartbeat_loop more l'
    | err e ↦ err e
    | panic p ↦ panic p
  ]
