-- ===== src/Server/Clients/Shutdown.antt =====
-- portal_server/client_manage.go: ClearAll and checkOnline on a sound manager.
use http_portal.Base.{
  ℕ, ◌-◌, ◌<◌, ◌≤◌, ◌*◌, ◌≡◌, refl, subst, ◌∙◌, ap, ◌⊎◌, inl, inr, String, true, false, none, some,
  List, [], ◌∷◌, lookup, nat_eq, string_eq, ◌==◌, arith, Bool-cases, lookup-insert,
}
use text.Mathlib.TextEquality.{eq_iff}
use http_portal.Server.Clients.{
  PortalClient, State, done, put_client, clear_all, clear_from, check_online, check_found,
  check_client, heartbeat_interval,
}
use http_portal.Server.Clients.Invariant.{IsSound, IsClosed, remove-IsSound}

-- What the loop of ClearAll leaves: a name is gone, or it was none of the entries and is as before.
abbrev Cleared : List (String × ℕ) → State → State → Type 0
Cleared es s s' =
    ((name : String)
      → (lookup name s'.registered ≡ none)
        ⊎ (lookup name es ≡ none) × (lookup name s'.registered ≡ lookup name s.registered))
    × ((id : ℕ) → IsClosed s id → IsClosed s' id)
    × ((name : String) (id : ℕ)
        → lookup name s.registered ≡ some id
        → (lookup name s'.registered ≡ some id) ⊎ IsClosed s' id)

clear_from-Cleared :
    (es : List (String × ℕ)) (s : State)
    → IsSound s
    → (s' : State) × (clear_from es s ≡ done s') × IsSound s' × Cleared es s s'
unfolding clear_from lookup
clear_from-Cleared [] s v = (s, refl, v, (λ name. inr (refl, refl), λ id k. k, λ name id e. inl e))
clear_from-Cleared ((name, id) ∷ more) s v =
    let (s1, run, v1, gone, others, shut) = remove-IsSound s name v in
    let (s2, run2, v2, cleared) = clear_from-Cleared more s1 v1 in
    (
      s2,
      rw (run, clear_from) run2,
      v2,
      (
        λ other. elim (cleared.0 other) [
          | inl none_left ↦ inl none_left
          | inr (absent, same) ↦ elim (Bool-cases (name == other)) [
            | inl hit ↦
                inl (
                  same
                  ∙ subst (λ k. lookup k s1.registered ≡ none) ((eq_iff name other).0 hit) gone)
            | inr miss ↦ inr (rw miss absent, same ∙ others other miss)
          ]
        ],
        λ j k. cleared.1 j (shut j (inr k)),
        λ other j e. elim (Bool-cases (name == other)) [
          | inl hit ↦ inr (
              cleared.1 j
                (shut j (inl (ap (λ k. lookup k s.registered) ((eq_iff name other).0 hit) ∙ e))))
          | inr miss ↦ cleared.2 other j (others other miss ∙ e)
        ],
      ),
    )

-- ClearAll of a sound manager never panics; it leaves no name registered, and every object that was
-- registered has its Quit channel closed.
pub clear_all-empty :
    (s : State)
    → IsSound s
    → (s' : State) × (clear_all s ≡ done s')
      × ((name : String) → lookup name s'.registered ≡ none)
      × ((name : String) (id : ℕ) → lookup name s.registered ≡ some id → IsClosed s' id)
unfolding clear_all
clear_all-empty s v =
    let (s', run, v', cleared) = clear_from-Cleared s.registered s v in
    let empty : (name : String) → lookup name s'.registered ≡ none =
      λ name. elim (cleared.0 name) [ inl gone ↦ gone | inr (absent, same) ↦ same ∙ absent ] in
    (
      s',
      run,
      empty,
      λ name id e. elim (cleared.2 name id e) [
        | inl there ↦ absurd (cc (empty name))
        | inr shut ↦ shut
      ],
    )

-- One round of checkOnline for a registered client that has not quit, on a sound manager, never
-- panics: after more than four heartbeat intervals of silence the client is removed and closed and
-- the goroutine ends; after more than two it is marked as not online and stays registered; before
-- that nothing changes.
pub check_online_by_silence :
    (s : State) (now id : ℕ) (c : PortalClient)
    → IsSound s
    → lookup id s.clients ≡ some c
    → lookup c.name s.registered ≡ some id
    → (4 * heartbeat_interval < now - c.last_beat
        → (s' : State) × (check_online false now id s ≡ done (false, s'))
          × (lookup c.name s'.registered ≡ none)
          × IsClosed s' id)
      × (2 * heartbeat_interval < now - c.last_beat
          → now - c.last_beat ≤ 4 * heartbeat_interval
          → (s' : State) × (check_online false now id s ≡ done (true, s'))
            × (s'.registered ≡ s.registered)
            × (lookup id s'.clients ≡ some (record c { online = false })))
      × (now - c.last_beat ≤ 2 * heartbeat_interval → check_online false now id s ≡ done (true, s))
unfolding check_online check_found check_client
check_online_by_silence s now id c v found here =
    let (s', run, v', gone, others, shut) = remove-IsSound s c.name v in
    (
      λ late. (s', ground arith, gone, shut id (inl here)),
      λ silent not_yet. (
        put_client id (record c { online = false }) s,
        ground arith,
        refl,
        ground (arith, lookup-insert id id (record c { online = false }) s.clients),
      ),
      λ fresh. ground arith,
    )
