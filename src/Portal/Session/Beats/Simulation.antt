-- ===== src/Portal/Session/Beats/Simulation.antt =====
-- portal/portal.go: every run of heartbeatLoop, with its messages and numbers, is a run of the machine
-- of Portal.Agent.
use http_portal.Base.{
  ℕ, ◌+◌, ◌-◌, ◌≡◌, refl, String, List, [], ◌∷◌, arith, ltb, leb, Bool-cases, inl, inr,
}
use http_portal.Core.Conn.{Outcome, ok, err, panic}
use http_portal.Core.Wire.{Codec}
use http_portal.Core.Wire.Calm.{Calm}
use http_portal.Portal.Agent as Agent
use http_portal.Portal.Agent.{
  Status, hb_not_connect, hb_not_login, hb_ok, hb_error, LocalPortal, Network,
}
use http_portal.Portal.Session.{Session}
use http_portal.Portal.Session.Waiting.{Quiet}
use http_portal.Portal.Session.Beats.{
  Round, Beating, close_conn, set_status, count_failure, counted, beaten, tick, heartbeat_loop,
}
use http_portal.Portal.Session.Beats.Shadow.{
  shadow, RoundReceived, Follows, network_of, heartbeat_once-Follows,
}

-- The loop goes on in this state of the machine, with no request pending.
abbrev pub GoesOn : Agent.Loop → Outcome Beating → Type 0
GoesOn l r = (l' : Beating) × (r ≡ ok l') × (shadow l' ≡ l) × Quiet l'.session.receiver

beaten-GoesOn :
    (now failed : ℕ) (status : Status) (p : LocalPortal) (out : Outcome Status × Session)
    → Follows (status, p) out
    → GoesOn (Agent.beaten now failed (status, p)) (beaten now failed out)
unfolding Agent.beaten beaten count_failure counted close_conn set_status
beaten-GoesOn now failed status p (err e, s) (at, same, quiet) = cc
beaten-GoesOn now failed status p (panic e, s) (at, same, quiet) = cc
beaten-GoesOn now failed hb_ok p (ok hb_ok, s) (at, same, quiet) = (_, refl, ground arith, quiet)
beaten-GoesOn now failed hb_error p (ok hb_error, s) (at, same, quiet) =
    elim (Bool-cases (leb 5 (failed + 1))) [
      | inl many ↦ rw many (_, refl, ground arith, quiet)
      | inr few ↦ rw few (_, refl, ground arith, quiet)
    ]
beaten-GoesOn now failed hb_not_login p (ok hb_not_login, s) (at, same, quiet) =
    elim (Bool-cases (leb 5 (failed + 1))) [
      | inl many ↦ rw many (_, refl, ground arith, quiet)
      | inr few ↦ rw few (_, refl, ground arith, quiet)
    ]
beaten-GoesOn now failed hb_not_connect p (ok hb_not_connect, s) (at, same, quiet) =
    elim (Bool-cases (leb 5 (failed + 1))) [
      | inl many ↦ rw many (_, refl, ground arith, quiet)
      | inr few ↦ rw few (_, refl, ground arith, quiet)
    ]
beaten-GoesOn now failed _ p (ok _, s) (at, same, quiet) = cc

module _ (codec : Codec) (server_write : ℕ) (name : String) where
  tick-GoesOn :
      (now : ℕ) (n : Round) (l : Beating)
      → Calm codec
      → Quiet l.session.receiver
      → RoundReceived n
      → GoesOn
          (Agent.tick now (network_of codec server_write name n l.session) (shadow l))
          (tick codec server_write name now n l)
  unfolding tick Agent.tick
  tick-GoesOn now n l calm quiet all =
      elim (Bool-cases (ltb (now - l.session.portal.last_transfer) l.interval)) [
        | inl early ↦ rw early (_, refl, refl, quiet)
        | inr due ↦ rw due (
            beaten-GoesOn now l.failed_time _ _ _
              (heartbeat_once-Follows codec server_write name n l.session calm quiet all))
      ]

  abbrev pub AllRounds : List (ℕ × Round) → Type 0
  AllRounds [] = Unit {0}
  AllRounds (t ∷ more) = RoundReceived t.1 × AllRounds more

  -- The networks of a run.
  unfoldable pub networks : List (ℕ × Round) → Beating → List (ℕ × Network)
  unfolding tick
  networks [] l = []
  networks ((now, n) ∷ more) l =
      (now, network_of codec server_write name n l.session)
      ∷ elim (tick codec server_write name now n l) [
        | ok l' ↦ networks more l'
        | err e ↦ []
        | panic p ↦ []
      ]

  -- heartbeatLoop with its messages, the numbers of its requests and its selects goes through the
  -- states of the machine of Portal.Agent, told of each round by the result of its Sends and by the
  -- first response with the number of its request that came while it waited; it never panics, and
  -- behind it no request is pending: where marshalling does not panic, no request was pending before,
  -- and what comes as an answer has been accepted by getMsg.
  pub heartbeat_loop-GoesOn :
      (ticks : List (ℕ × Round)) (l : Beating)
      → Calm codec
      → Quiet l.session.receiver
      → AllRounds ticks
      → GoesOn
          (Agent.heartbeat_loop (networks ticks l) (shadow l))
          (heartbeat_loop codec server_write name ticks l)
  unfolding heartbeat_loop Agent.heartbeat_loop networks
  heartbeat_loop-GoesOn [] l calm quiet all = (l, refl, refl, quiet)
  heartbeat_loop-GoesOn ((now, n) ∷ more) l calm quiet (one, all) =
      let (l', done, same, quiet') = tick-GoesOn now n l calm quiet one in
      rw (heartbeat_loop, done, ← same) (heartbeat_loop-GoesOn more l' calm quiet' all)
