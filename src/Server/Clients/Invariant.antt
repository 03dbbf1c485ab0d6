-- ===== src/Server/Clients/Invariant.antt =====
-- portal_server/client_manage.go: the manager's invariant.
use http_portal.Base.{
  ℕ, ◌≡◌, refl, ◌≢◌, ◌⊎◌, inl, inr, String, true, false, none, some, lookup, insert, delete, nat_eq,
  string_eq, ◌==◌, eqb, eqb_iff, arith, lookup-insert, lookup-delete, Option-cases, Bool-cases,
}
use text.Mathlib.TextEquality.{eq_iff}
use text.Mathlib.TextPositions.{eq_refl}
use http_portal.Server.Clients.{
  PortalClient, State, done, put_client, close, add, add_named, remove, remove_found, drop_client,
}

-- A name leads to an object that has this name, is logged in and has not been closed.
abbrev pub Live : State → String → ℕ → Type 0
Live s name id =
    (c : PortalClient) × (lookup id s.clients ≡ some c)
    × (c.name ≡ name)
    × (c.is_login ≡ true)
    × (c.quit_closed ≡ false)

pub record IsSound (s : State) : Type 0 where
  pub entries : (name : String) (id : ℕ) → lookup name s.registered ≡ some id → Live s name id

-- A client that is open and not logged in stands under no name.
pub unregistered :
    (s : State) (id : ℕ) (c : PortalClient) (name : String)
    → IsSound s
    → lookup id s.clients ≡ some c
    → c.is_login ≡ false
    → lookup name s.registered ≢ some id
unregistered s id c name v found out e =
    let (d, at, named, logged, open_) = v.entries name id e in cc

-- Putting back an object that no name leads to keeps the invariant.
pub put_client-IsSound :
    (s : State) (id : ℕ) (c : PortalClient)
    → IsSound s
    → ((name : String) → lookup name s.registered ≢ some id)
    → IsSound (put_client id c s)
put_client-IsSound s id c v free = record {
  entries = λ name j e.
      let (d, at, named, logged, open_) = v.entries name j e in
      (d, ground (arith, lookup-insert id j c s.clients, free name), named, logged, open_);
}

add_named-IsSound :
    (s : State) (id : ℕ) (c : PortalClient)
    → IsSound s
    → lookup id s.clients ≡ some c
    → c.is_login ≡ false
    → c.quit_closed ≡ false
    → IsSound (add_named id c none s).1
unfolding add_named
add_named-IsSound s id c v found out fresh = record {
  entries = λ name j e. elim (Bool-cases (c.name == name)) [
    | inl same ↦ (
      record c { is_login = true },
      ground (
        arith,
        lookup-insert c.name name id s.registered,
        lookup-insert id j (record c { is_login = true }) s.clients,
      ),
      (eq_iff c.name name).0 same,
      refl,
      fresh,
    )
    | inr other ↦
        let before : lookup name s.registered ≡ some j =
          ground (arith, lookup-insert c.name name id s.registered) in
        let (d, at, named, logged, open_) = v.entries name j before in
        (
          d,
          ground (
            arith,
            lookup-insert id j (record c { is_login = true }) s.clients,
            unregistered s id c name v found out,
          ),
          named,
          logged,
          open_,
        )
  ];
}

-- Add keeps the invariant: a client that is open and not logged in is registered under its name and
-- logged in, or refused because the name is taken.
pub add-IsSound :
    (s : State) (id : ℕ) (c : PortalClient)
    → IsSound s
    → lookup id s.clients ≡ some c
    → c.is_login ≡ false
    → c.quit_closed ≡ false
    → IsSound (add id c s).1
unfolding add
add-IsSound s id c v found out fresh = elim (Option-cases (lookup c.name s.registered)) [
  | inl free ↦ rw (free, add) (add_named-IsSound s id c v found out fresh)
  | inr (other, taken) ↦ rw (taken, add) v
]

abbrev pub IsClosed : State → ℕ → Type 0
IsClosed s id = (c : PortalClient) × (lookup id s.clients ≡ some c) × (c.quit_closed ≡ true)

kept :
    (s : State) (name : String) (id : ℕ)
    → lookup name s.registered ≡ none
    → (lookup name s.registered ≡ some id) ⊎ IsClosed s id
    → IsClosed s id
kept s name id gone (inl e) = cc
kept s name id gone (inr k) = k

module _ (s : State) (name : String) (id : ℕ) (v : IsSound s)
    (here : lookup name s.registered ≡ some id) where
  -- What Remove makes of a name that is registered.
  abbrev pub removed : PortalClient → State
  removed c = record s {
    clients =
        insert id
          (record c { online = false; quit_closed = true; conn = record c.conn { closed = true } })
          s.clients;
    registered = delete name s.registered;
  }

  removed-IsSound :
      (c : PortalClient) → lookup id s.clients ≡ some c → c.name ≡ name → IsSound (removed c)
  removed-IsSound c found named = record {
    entries = λ other j e.
        let before : lookup other s.registered ≡ some j =
          ground (arith, lookup-delete name other s.registered) in
        let (d, at, n, logged, open_) = v.entries other j before in
        (
          d,
          ground (
            arith,
            lookup-insert id j
                (record c {
                  online = false;
                  quit_closed = true;
                  conn = record c.conn { closed = true };
                })
                s.clients,
            lookup-delete name other s.registered,
            eq_iff name other,
          ),
          n,
          logged,
          open_,
        );
  }

  now-IsClosed :
      (c : PortalClient) (j : ℕ)
      → (lookup name s.registered ≡ some j) ⊎ IsClosed s j
      → IsClosed (removed c) j
  now-IsClosed c j k = elim (Bool-cases (eqb id j)) [
    | inl same ↦ (
      record c { online = false; quit_closed = true; conn = record c.conn { closed = true } },
      rw
          (
            lookup-insert id j
                (record c {
                  online = false;
                  quit_closed = true;
                  conn = record c.conn { closed = true };
                })
                s.clients,
            same,
          )
          refl,
      refl,
    )
    | inr other ↦ elim k [
      | inl e ↦ absurd (ground (arith, eqb_iff id j))
      | inr (d, at, shut) ↦ (
        d,
        rw
            (
              lookup-insert id j
                  (record c {
                    online = false;
                    quit_closed = true;
                    conn = record c.conn { closed = true };
                  })
                  s.clients,
              other,
            )
            at,
        shut,
      )
    ]
  ]

  remove_registered :
      (c : PortalClient) × (lookup id s.clients ≡ some c)
      × (remove name s ≡ done (removed c))
      × IsSound (removed c)
  unfolding remove remove_found drop_client close
  remove_registered =
      let (c, found, named, logged, open_) = v.entries name id here in
      (
        c,
        found,
        rw (here, remove_found, found, drop_client, open_) refl,
        removed-IsSound c found named,
      )

-- On a sound manager Remove never panics, whatever name it is given, and keeps the manager sound; the
-- name is gone and all others stay; the object that it led to has its Quit channel closed, and so
-- has every object that had it closed before.
pub remove-IsSound :
    (s : State) (name : String)
    → IsSound s
    → (s' : State) × (remove name s ≡ done s')
      × IsSound s'
      × (lookup name s'.registered ≡ none)
      × ((other : String)
          → (name == other) ≡ false
          → lookup other s'.registered ≡ lookup other s.registered)
      × ((id : ℕ) → (lookup name s.registered ≡ some id) ⊎ IsClosed s id → IsClosed s' id)
remove-IsSound s name v = elim (Option-cases (lookup name s.registered)) [
  | inl gone ↦ (
    s,
    unfold remove remove_found in rw gone refl,
    v,
    gone,
    λ other h. refl,
    λ id k. kept s name id gone k,
  )
  | inr (id, here) ↦
      let (c, found, run, v') = remove_registered s name id v here in
      (
        removed s name id v here c,
        run,
        v',
        ground (arith, lookup-delete name name s.registered, eq_refl name),
        λ other h. ground (arith, lookup-delete name other s.registered),
        λ j k. now-IsClosed s name id v here c j k,
      )
]

-- Putting back an object that differs in nothing that the invariant reads keeps the invariant.
pub put_client-keeps :
    (s : State) (id : ℕ) (c d : PortalClient)
    → IsSound s
    → lookup id s.clients ≡ some c
    → d.name ≡ c.name
    → d.is_login ≡ c.is_login
    → d.quit_closed ≡ c.quit_closed
    → IsSound (put_client id d s)
put_client-keeps s id c d v found n l q = record {
  entries = λ name j e.
      let (b, at, named, logged, open_) = v.entries name j e in
      elim (Bool-cases (eqb id j)) [
        | inl same ↦ (
          d,
          rw (lookup-insert id j d s.clients, same) refl,
          ground (arith, eqb_iff id j),
          ground (arith, eqb_iff id j),
          ground (arith, eqb_iff id j),
        )
        | inr other ↦ (b, rw (lookup-insert id j d s.clients, other) at, named, logged, open_)
      ];
}
