-- ===== src/Server/Listener/Accepted.antt =====
-- portal_server/proxy_server.go: how long accept serves.
use http_portal.Base.{
  ℕ, suc, ◌+◌, ◌≤◌, ◌≡◌, refl, sym, ap, ◌∙◌, ◌⊎◌, inl, inr, String, true, false, none, some, List,
  [], ◌∷◌, insert, lookup, nat_eq, if◌then◌else◌, length, All, arith, Bool-cases, Option-cases,
  ◌++◌,
}
use http_portal.Core.Errors.{Error, is_temporary, calc_delay}
use http_portal.Core.Conn.{Conn}
use http_portal.Server.Clients.{PortalClient, State, new_portal_client, put_client}
use http_portal.Server.Listener.{
  Turn, serving, returned, crashed, handled, relisten, accept_round, accept, handle_raw_conn,
  new_number,
}

-- A round that brings a connection, or an error that is temporary.
abbrev pub IsPassing : Turn → Type 0
IsPassing t =
    ((conn : Conn) × (t.accept ≡ inr conn))
    ⊎ ((e : Error) × (t.accept ≡ inl e) × (is_temporary e ≡ true))

-- The connections that were accepted.
unfoldable pub accepted_of : List Turn → ℕ
accepted_of [] = 0
accepted_of (t ∷ more) = elim t.accept [
  | inr conn ↦ suc (accepted_of more)
  | inl e ↦ accepted_of more
]

new_number-above :
    (id : ℕ) (clients : List (ℕ × PortalClient))
    → new_number clients ≤ id
    → lookup id clients ≡ none
unfolding new_number lookup
new_number-above id [] h = refl
new_number-above id ((at, c) ∷ more) h = ground (arith, new_number-above id more)

insert_new-length :
    (id : ℕ) (c : PortalClient) (clients : List (ℕ × PortalClient))
    → lookup id clients ≡ none
    → length (insert id c clients) ≡ suc (length clients)
unfolding insert lookup
insert_new-length id c [] h = refl
insert_new-length id c ((at, d) ∷ more) h = ground (arith, insert_new-length id c more)

serving_state : (a b : ℕ) (s s' : State) → serving a s ≡ serving b s' → s ≡ s'
serving_state a b s s' e = cc

-- What one round that goes on has done.
round-serving :
    (a : Error ⊎ Conn) (t : Turn) (delay d : ℕ) (s s' : State)
    → accept_round a t delay s ≡ serving d s'
    → (s'.registered ≡ s.registered)
      × (((conn : Conn) × (a ≡ inr conn) × (length s'.clients ≡ suc (length s.clients)))
          ⊎ ((e : Error) × (a ≡ inl e) × (is_temporary e ≡ true) × (s' ≡ s)))
unfolding accept_round handled relisten handle_raw_conn
round-serving (inr conn) t delay d s s' e =
    let same =
      serving_state 0 d (put_client (new_number s.clients) (new_portal_client conn t.now) s) s' e in
    (
      ap (λ x. x.registered) (sym same),
      inl (
        conn,
        refl,
        ap (λ x. length x.clients) (sym same)
            ∙ insert_new-length (new_number s.clients) _ s.clients
                (new_number-above _ s.clients (omega arith)),
      ),
    )
round-serving (inl x) t delay d s s' e = elim (Bool-cases (is_temporary x)) [
  | inl passing ↦
      let same = serving_state (calc_delay delay) d s s' (rw passing at e) in
      (ap (λ y. y.registered) (sym same), inr (x, refl, passing, sym same))
  | inr lasting ↦ absurd (gone (rw lasting at e))
]
  where
    gone : (if t.stopped then returned s else relisten t.listen t.now s) ≡ serving d s' → ⊥
    gone e' = elim (Bool-cases t.stopped) [
      | inl halted ↦ grind arith
      | inr running ↦ elim (Option-cases t.listen) [
        | inl fresh ↦ grind arith
        | inr (y, failing) ↦ grind arith
      ]
    ]

-- A round that passes goes on.
passing-serving :
    (t : Turn) (delay : ℕ) (s : State)
    → IsPassing t
    → (d : ℕ) × (s' : State) × (accept_round t.accept t delay s ≡ serving d s')
unfolding accept_round handled handle_raw_conn
passing-serving t delay s (inl (conn, same)) =
    (0, put_client (new_number s.clients) (new_portal_client conn t.now) s, rw same refl)
passing-serving t delay s (inr (x, same, temporary)) =
    (calc_delay delay, s, rw (same, accept_round, temporary) refl)

accept-serving :
    (t : Turn) (more : List Turn) (delay d : ℕ) (s s' : State)
    → accept_round t.accept t delay s ≡ serving d s'
    → accept (t ∷ more) delay s ≡ accept more d s'
unfolding accept
accept-serving t more delay d s s' e = rw (accept, e) refl

accept-returned :
    (t : Turn) (more : List Turn) (delay : ℕ) (s s' : State)
    → accept_round t.accept t delay s ≡ returned s'
    → accept (t ∷ more) delay s ≡ returned s'
unfolding accept
accept-returned t more delay s s' e = rw (accept, e) refl

accept-crashed :
    (t : Turn) (more : List Turn) (delay : ℕ) (s : State) (p : String)
    → accept_round t.accept t delay s ≡ crashed p
    → accept (t ∷ more) delay s ≡ crashed p
unfolding accept
accept-crashed t more delay s p e = rw (accept, e) refl

-- The round of an error that is not temporary.
module _ (t : Turn) (delay : ℕ) (s : State) (e : Error) (failed : t.accept ≡ inl e)
    (lasting : is_temporary e ≡ false) where
  lasting-round :
      accept_round t.accept t delay s
      ≡ (if t.stopped then returned s else relisten t.listen t.now s)
  unfolding accept_round
  lasting-round = ap (λ a. accept_round a t delay s) failed ∙ rw lasting refl

  last-stopped : t.stopped ≡ true → accept_round t.accept t delay s ≡ returned s
  last-stopped halted = lasting-round ∙ rw halted refl

  last-listen :
      (x : Error)
      → t.stopped ≡ false
      → t.listen ≡ some x
      → accept_round t.accept t delay s ≡ returned s
  unfolding relisten
  last-listen x running fails = lasting-round ∙ rw (running, fails) refl

  last-relisten :
      t.stopped ≡ false → t.listen ≡ none → accept_round t.accept t delay s ≡ crashed "nil pointer"
  unfolding relisten handled handle_raw_conn
  last-relisten running fine = lasting-round ∙ rw (running, fine) refl

accepted_of-passing :
    (t : Turn) (more : List Turn) (delay d n : ℕ) (s s' : State)
    → accept_round t.accept t delay s ≡ serving d s'
    → n ≡ accepted_of more + length s'.clients
    → n ≡ accepted_of (t ∷ more) + length s.clients
unfolding accepted_of
accepted_of-passing t more delay d n s s' e m = elim (round-serving t.accept t delay d s s' e).1 [
  | inl (conn, same, larger) ↦ rw same (omega (arith, m, larger))
  | inr (x, same, temporary, kept) ↦
      rw same (m ∙ ap (λ y. accepted_of more + length y.clients) kept)
]

-- accept goes on over any row of connections and temporary errors: each connection becomes one more
-- client, and no name is registered. The first error that is not temporary ends it: where the server
-- has been stopped, or listen fails, accept returns; where listen succeeds, the process panics.
pub accept_until :
    (turns more : List Turn) (t : Turn) (delay : ℕ) (s : State) (e : Error)
    → All IsPassing turns
    → t.accept ≡ inl e
    → is_temporary e ≡ false
    → (s' : State) × (s'.registered ≡ s.registered)
      × (length s'.clients ≡ accepted_of turns + length s.clients)
      × (t.stopped ≡ true → accept (turns ++ t ∷ more) delay s ≡ returned s')
      × ((x : Error)
          → t.stopped ≡ false
          → t.listen ≡ some x
          → accept (turns ++ t ∷ more) delay s ≡ returned s')
      × (t.stopped ≡ false
          → t.listen ≡ none
          → accept (turns ++ t ∷ more) delay s ≡ crashed "nil pointer")
unfolding accepted_of
accept_until [] more t delay s e all failed lasting = (
  s,
  refl,
  omega arith,
  λ halted. accept-returned t more delay s s (last-stopped t delay s e failed lasting halted),
  λ x running fails.
      accept-returned t more delay s s (last-listen t delay s e failed lasting x running fails),
  λ running fine.
      accept-crashed t more delay s _ (last-relisten t delay s e failed lasting running fine),
)
accept_until (u ∷ turns) more t delay s e (passing, all) failed lasting =
    let (d, s1, goes) = passing-serving u delay s passing in
    let (s', names, count, halts, fails, panics_) =
      accept_until turns more t d s1 e all failed lasting in
    let step = accept-serving u (turns ++ t ∷ more) delay d s s1 goes in
    (
      s',
      names ∙ (round-serving u.accept u delay d s s1 goes).0,
      accepted_of-passing u turns delay d (length s'.clients) s s1 goes count,
      λ halted. step ∙ halts halted,
      λ x running failing. step ∙ fails x running failing,
      λ running fine. step ∙ panics_ running fine,
    )
