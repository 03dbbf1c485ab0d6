-- ===== src/Portal/Agent/Recovery.antt =====
-- portal/portal.go: heartbeatLoop finds its way back to a server that answers.
use http_portal.Base.{ℕ, ◌-◌, ◌≤◌, ◌≡◌, refl, ◌⊎◌, inl, inr, ◌≢◌, false, none, string_eq, arith}
use http_portal.Core.Messages.{success, not_login}
use http_portal.Portal.Agent.{
  Status, hb_not_connect, hb_not_login, hb_ok, hb_error, Loop, Network, responded, tick, heartbeat,
  recover_heartbeat, connect, login, request_status, heartbeat_interval,
}
use http_portal.Portal.Agent.Machine.{IsSteady, tick-IsSteady}

-- A server that answers every dial, login and heartbeat. It does not know a connection that was
-- opened for this heartbeat, and has not been logged in.
abbrev pub server_up : Status → Network
server_up hb_not_connect = record {
  dial = none;
  login_reaction = responded "" success;
  beat_reaction = responded "" not_login;
  stopped = false;
}
server_up s = record {
  dial = none;
  login_reaction = responded "" success;
  beat_reaction = responded "" success;
  stopped = false;
}

abbrev pub up_tick : ℕ → Loop → Loop
up_tick now l = tick now (server_up l.portal.status) l

-- The timer is not early: a whole interval has passed since the last transfer.
abbrev pub Due : ℕ → Loop → Type 0
Due now l = heartbeat_interval ≤ now - l.portal.last_transfer

interval-le : (l : Loop) → IsSteady l → l.interval ≤ heartbeat_interval
interval-le l v = by_status l.portal.status refl
  where
    by_status : (s : Status) → l.portal.status ≡ s → l.interval ≤ heartbeat_interval
    by_status hb_ok e = omega (arith, v.slow (inl e))
    by_status hb_error e = omega (arith, v.slow (inr e))
    by_status hb_not_login e = omega (arith, v.fast (inl e))
    by_status hb_not_connect e = omega (arith, v.fast (inr e))

up_tick-ok : (now : ℕ) (l : Loop) → l.portal.status ≡ hb_ok → (up_tick now l).portal.status ≡ hb_ok
unfolding tick heartbeat recover_heartbeat request_status
up_tick-ok now l e = ground arith

up_tick-near :
    (now : ℕ) (l : Loop)
    → IsSteady l
    → Due now l
    → l.portal.status ≢ hb_not_connect
    → (up_tick now l).portal.status ≡ hb_ok
unfolding tick heartbeat recover_heartbeat login request_status
up_tick-near now l v d e = ground (arith, interval-le l v)

-- A tick on a closed connection opens it again, and leaves the time of the last transfer alone.
up_tick-far :
    (now : ℕ) (l : Loop)
    → IsSteady l
    → Due now l
    → l.portal.status ≡ hb_not_connect
    → ((up_tick now l).portal.status ≡ hb_not_login)
      ⊎ (((up_tick now l).portal.status ≡ hb_not_connect) × ((up_tick now l).failed_time ≡ 0))
unfolding tick heartbeat recover_heartbeat connect request_status
up_tick-far now l v d e = ground (arith, interval-le l v)

up_tick-fresh :
    (now : ℕ) (l : Loop)
    → IsSteady l
    → Due now l
    → l.portal.status ≡ hb_not_connect
    → l.failed_time ≡ 0
    → (up_tick now l).portal.status ≡ hb_not_login
unfolding tick heartbeat recover_heartbeat connect request_status
up_tick-fresh now l v d e z = ground (arith, interval-le l v)

up_tick-last_transfer :
    (now : ℕ) (l : Loop)
    → l.portal.status ≡ hb_not_connect
    → (up_tick now l).portal.last_transfer ≡ l.portal.last_transfer
unfolding tick heartbeat recover_heartbeat connect request_status
up_tick-last_transfer now l e = ground arith

up_tick-IsSteady : (now : ℕ) (l : Loop) → IsSteady l → IsSteady (up_tick now l)
up_tick-IsSteady now l v = tick-IsSteady now (server_up l.portal.status) l v

up_tick-Due :
    (now later : ℕ) (l : Loop)
    → l.portal.status ≡ hb_not_connect
    → Due later l
    → Due later (up_tick now l)
up_tick-Due now later l e d = omega (arith, up_tick-last_transfer now l e)

near_or_far : (s : Status) → (s ≡ hb_not_connect) ⊎ (s ≢ hb_not_connect)
near_or_far hb_not_connect = inl refl
near_or_far hb_not_login = inr (λ e. grind arith)
near_or_far hb_ok = inr (λ e. grind arith)
near_or_far hb_error = inr (λ e. grind arith)

logged_out_is_near : (s : Status) → s ≡ hb_not_login → s ≢ hb_not_connect
logged_out_is_near s e f = grind arith

-- From every state of heartbeatLoop in its invariant, three timer firings, none of them before a
-- heartbeat interval has passed since the last transfer, bring a portal back to hbOK when the
-- server answers every dial and login, and every heartbeat of a connection that was logged in.
pub three_ticks_recover :
    (t1 t2 t3 : ℕ) (l : Loop)
    → IsSteady l
    → Due t1 l
    → Due t2 l
    → Due t3 l
    → (up_tick t3 (up_tick t2 (up_tick t1 l))).portal.status ≡ hb_ok
three_ticks_recover t1 t2 t3 l v d d' d'' = elim (near_or_far l.portal.status) [
  | inr near ↦ up_tick-ok t3 _ (up_tick-ok t2 _ (up_tick-near t1 l v d near))
  | inl far ↦ elim (up_tick-far t1 l v d far) [
    | inl out ↦ up_tick-ok t3 _ (up_tick-near t2 _ v1 (d1 far) (logged_out_is_near _ out))
    | inr (gone, zero) ↦
        up_tick-near t3 _ (up_tick-IsSteady t2 _ v1)
          (up_tick-Due t2 t3 _ gone (up_tick-Due t1 t3 l far d''))
          (logged_out_is_near _ (up_tick-fresh t2 _ v1 (d1 far) gone zero))
  ]
]
  where
    v1 : IsSteady (up_tick t1 l)
    v1 = up_tick-IsSteady t1 l v

    d1 : l.portal.status ≡ hb_not_connect → Due t2 (up_tick t1 l)
    d1 far = up_tick-Due t1 t2 l far d'
