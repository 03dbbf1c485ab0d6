-- ===== src/Portal/Session/Beats/Shadow.antt =====
-- portal/portal.go: heartbeatLoop with its messages and numbers goes through the states of the machine
-- of Portal.Agent.
use http_portal.Base.{
  ℕ, ◌≡◌, refl, ◌∙◌, String, Option, none, some, nat_eq, arith, Option-cases, inl, inr,
}
use http_portal.Core.Errors.{Error}
use http_portal.Core.Conn.{Outcome, ok, err, panic}
use http_portal.Core.Wire.{Codec}
use http_portal.Core.Wire.Calm.{Calm}
use http_portal.Portal.Agent as Agent
use http_portal.Portal.Agent.{
  Status, hb_not_connect, hb_not_login, hb_ok, hb_error, LocalPortal, Network, Reaction,
}
use http_portal.Portal.Session.{Session, login}
use http_portal.Portal.Session.Waiting.{Quiet}
use http_portal.Portal.Session.Refines.{
  AllReceived, login_reaction, beat_reaction, LogsIn, login-LogsIn, request_beat-Beats,
}
use http_portal.Portal.Session.Beats.{
  Round, Beating, recover_from, reconnected, relogged, recover_heartbeat, beat_after,
  heartbeat_once,
}

-- The loop as Portal.Agent sees it.
abbrev pub shadow : Beating → Agent.Loop
shadow l = record {
  portal = l.session.portal;
  failed_time = l.failed_time;
  interval = l.interval;
  timer = l.timer;
}

-- Whatever comes as an answer has been accepted by getMsg.
abbrev pub RoundReceived : Round → Type 0
RoundReceived n = AllReceived n.login_call.answers × AllReceived n.beat_call.answers

-- The result of recoverHeartbeat or heartbeat, and that no request is pending behind it.
abbrev pub Follows : Status × LocalPortal → Outcome Status × Session → Type 0
Follows (status, p) out = (out.0 ≡ ok status) × (out.1.portal ≡ p) × Quiet out.1.receiver

module _ (codec : Codec) (server_write : ℕ) (name : String) where
  -- What Portal.Agent is told of a round.
  unfoldable pub network_of : Round → Session → Network
  network_of n s = record {
    dial = n.dial;
    login_reaction = login_reaction codec server_write name n.login_call s;
    beat_reaction =
        beat_reaction codec server_write name n.beat_call
          (recover_heartbeat codec server_write name n s).1;
    stopped = n.stopped;
  }

  relogged-Follows :
      (n : Network) (p : LocalPortal) (e : Option Error) (out : Outcome (Unit {0}) × Session)
      → p.status ≡ hb_not_login
      → (Agent.login n.login_reaction p).0 ≡ e
      → LogsIn n.login_reaction p out
      → Follows (Agent.recover_heartbeat n p) (relogged out)
  unfolding relogged Agent.recover_heartbeat
  relogged-Follows n p none (ok u, s) at fine (code, same, quiet) =
      (ground arith, ground arith, quiet)
  relogged-Follows n p none (err x, s) at fine (code, same, quiet) = ground arith
  relogged-Follows n p none (panic x, s) at fine (code, same, quiet) = ground arith
  relogged-Follows n p (some x) (ok u, s) at failed (code, same, quiet) = ground arith
  relogged-Follows n p (some x) (err y, s) at failed (code, same, quiet) =
      (ground arith, ground arith, quiet)
  relogged-Follows n p (some x) (panic y, s) at failed (code, same, quiet) = ground arith

  recover-Follows :
      (n : Round) (s : Session) (status : Status)
      → s.portal.status ≡ status
      → Calm codec
      → Quiet s.receiver
      → RoundReceived n
      → Follows
          (Agent.recover_heartbeat (network_of n s) s.portal)
          (recover_from codec server_write name status n s)
  unfolding recover_from Agent.recover_heartbeat reconnected network_of Agent.connect
  recover-Follows n s hb_ok at calm quiet all = rw at (refl, refl, quiet)
  recover-Follows n s hb_error at calm quiet all = rw at (refl, refl, quiet)
  recover-Follows n s hb_not_connect at calm quiet all = elim (Option-cases n.dial) [
    | inl dialled ↦ rw (at, dialled) (refl, refl, quiet)
    | inr (e, refused) ↦ rw (at, refused) (refl, refl, quiet)
  ]
  recover-Follows n s hb_not_login at calm quiet all =
      relogged-Follows (network_of n s) s.portal _ (login codec server_write name n.login_call s) at
        refl (login-LogsIn codec server_write name n.login_call s calm quiet all.0)

  beat_after-Follows :
      (n : Round) (w : Network) (status : Status) (p : LocalPortal) (out : Outcome Status × Session)
      → Follows (status, p) out
      → w.stopped ≡ n.stopped
      → w.beat_reaction ≡ beat_reaction codec server_write name n.beat_call out.1
      → Calm codec
      → AllReceived n.beat_call.answers
      → Follows (Agent.beat_after status w, p) (beat_after codec server_write name n out)
  unfolding beat_after Agent.beat_after
  beat_after-Follows n w status p (err e, s) (at, same, quiet) st re calm all = cc
  beat_after-Follows n w status p (panic e, s) (at, same, quiet) st re calm all = cc
  beat_after-Follows n w hb_ok p (ok hb_ok, s) (at, same, quiet) st re calm all =
      let (done, kept, after) =
        request_beat-Beats codec server_write name n.stopped n.beat_call s calm quiet all in
      rw (st, re) (done, kept ∙ same, after)
  beat_after-Follows n w hb_error p (ok hb_error, s) (at, same, quiet) st re calm all =
      (refl, same, quiet)
  beat_after-Follows n w hb_not_login p (ok hb_not_login, s) (at, same, quiet) st re calm all =
      (refl, same, quiet)
  beat_after-Follows n w hb_not_connect p (ok hb_not_connect, s) (at, same, quiet) st re calm all =
      (refl, same, quiet)
  beat_after-Follows n w _ p (ok _, s) (at, same, quiet) st re calm all = cc

  -- heartbeat does what Portal.Agent says of this network.
  pub heartbeat_once-Follows :
      (n : Round) (s : Session)
      → Calm codec
      → Quiet s.receiver
      → RoundReceived n
      → Follows
          (Agent.heartbeat (network_of n s) s.portal)
          (heartbeat_once codec server_write name n s)
  unfolding heartbeat_once Agent.heartbeat network_of recover_heartbeat
  heartbeat_once-Follows n s calm quiet all =
      beat_after-Follows n (network_of n s) _ _ _
        (recover-Follows n s s.portal.status refl calm quiet all) refl refl calm all.1
