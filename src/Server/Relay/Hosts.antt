-- ===== src/Server/Relay/Hosts.antt =====
-- portal_server/proxy_server.go: SetHosts ranges over a Go map, in any order.
use mathlib.Core.Logic.Or
use mathlib.Core.List.{Mem, Perm, mem-cons, not-mem-nil, mem-cons_self, mem-cons_of_mem}
use mathlib.Core.List.Perm
use mathlib.Core.Bool.{Bool-set}
use http_portal.Base.{
  ◌≡◌, refl, sym, ap, ◌++◌, ◌∙◌, inl, inr, String, Bool, true, false, ◌||◌, some, List, [], ◌∷◌,
  Text, lookup, insert, lookup-insert, text_eq, string_eq, ◌==◌, if◌then◌else◌, arith, Bool-cases,
}
use http_portal.Server.Relay.{ProxyServer, set_hosts, set_hosts_of, set_hosts_from}

abbrev pub member : Text → List Text → Bool
member host [] = false
member host (h ∷ more) = (h == host) || member host more

abbrev pub listed : Text → List (String × List Text) → Bool
listed host [] = false
listed host ((name, arr) ∷ more) = member host arr || listed host more

set_hosts_of-lookup :
    (host : Text) (name : String) (arr : List Text) (hosts : List (Text × String))
    → lookup host (set_hosts_of name arr hosts)
      ≡ (if member host arr then some name else lookup host hosts)
unfolding set_hosts_of
set_hosts_of-lookup host name [] hosts = refl
set_hosts_of-lookup host name (h ∷ more) hosts = ground (
  arith,
  set_hosts_of-lookup host name more (insert h name hosts),
  lookup-insert h host name hosts,
)

-- The host is listed under this name only.
abbrev pub OnlyUnder : String → Text → List (String × List Text) → Type 0
OnlyUnder name host c =
    (entry : String × List Text)
    → Mem entry c
    → member host entry.1 ≡ true
    → (entry.0 == name) ≡ true

set_hosts_from-lookup :
    (host : Text) (name : String) (c : List (String × List Text)) (hosts : List (Text × String))
    → OnlyUnder name host c
    → lookup host (set_hosts_from c hosts)
      ≡ (if listed host c then some name else lookup host hosts)
unfolding set_hosts_from
set_hosts_from-lookup host name [] hosts only = refl
set_hosts_from-lookup host name ((n, arr) ∷ more) hosts only =
    let here = only (n, arr) mem-cons_self in
    let rest =
      set_hosts_from-lookup host name more (set_hosts_of n arr hosts)
        (λ e m. only e (mem-cons_of_mem (n, arr) m)) in
    ground (arith, rest, here, string_eq.equal_iff n name, set_hosts_of-lookup host n arr hosts)

listed-Mem :
    (host : Text) (c : List (String × List Text))
    → listed host c ≡ true
    → (entry : String × List Text) × Mem entry c × (member host entry.1 ≡ true)
listed-Mem host [] e = cc
listed-Mem host ((name, arr) ∷ more) e = elim (Bool-cases (member host arr)) [
  | inl here ↦ ((name, arr), mem-cons_self, here)
  | inr there ↦
      let (entry, m, lists) = listed-Mem host more (ground arith) in
      (entry, mem-cons_of_mem (name, arr) m, lists)
]

Mem-listed :
    (host : Text) (entry : String × List Text) (c : List (String × List Text))
    → member host entry.1 ≡ true
    → Mem entry c
    → listed host c ≡ true
Mem-listed host entry [] lists m = elim (not-mem-nil m) [ ]
Mem-listed host entry ((name, arr) ∷ more) lists m =
    Or.elim (Bool-set _ _) (mem-cons.0 m)
      (λ same.
        let own : member host arr ≡ true = ap (λ x. member host x.1) (sym same) ∙ lists in
        ground arith)
      (λ later. let rest = Mem-listed host entry more lists later in ground arith)

listed-perm :
    (host : Text) (c c' : List (String × List Text))
    → Perm c c'
    → listed host c ≡ true
    → listed host c' ≡ true
listed-perm host c c' p e =
    let (entry, m, lists) = listed-Mem host c e in
    Mem-listed host entry c' lists ((Perm.mem_iff p).0 m)

listed-same :
    (host : Text) (c c' : List (String × List Text)) → Perm c c' → listed host c ≡ listed host c'
listed-same host c c' p =
    let there = listed-perm host c c' p in
    let back = listed-perm host c' c (Perm.symm p) in ground arith

set_hosts_from-last :
    (host : Text) (n : String) (arr : List Text) (c : List (String × List Text))
    (hosts : List (Text × String))
    → member host arr ≡ true
    → lookup host (set_hosts_from (c ++ (n, arr) ∷ []) hosts) ≡ some n
unfolding set_hosts_from
set_hosts_from-last host n arr [] hosts lists = set_hosts_of-lookup host n arr hosts ∙ rw lists refl
set_hosts_from-last host n arr ((m, more) ∷ c) hosts lists =
    set_hosts_from-last host n arr c (set_hosts_of m more hosts) lists

-- SetHosts does not depend on the order in which the range gives the entries of the configuration, for
-- a host that is listed under one name only: in any order, the host is served by the agent with this
-- name if it is listed at all, and as before otherwise.
pub set_hosts-perm :
    (name : String) (host : Text) (c c' : List (String × List Text)) (s : ProxyServer)
    → Perm c c'
    → OnlyUnder name host c
    → (lookup host (set_hosts c s).hosts
        ≡ (if listed host c then some name else lookup host s.hosts))
      × (lookup host (set_hosts c' s).hosts ≡ lookup host (set_hosts c s).hosts)
unfolding set_hosts
set_hosts-perm name host c c' s p only =
    let first = set_hosts_from-lookup host name c s.hosts only in
    let second =
      set_hosts_from-lookup host name c' s.hosts (λ e m. only e ((Perm.mem_iff p).1 m)) in
    (first, second ∙ rw (← listed-same host c c' p) (sym first))

-- Whoever the range gives last serves a host that is listed under several names.
set_hosts-last :
    (host : Text) (name : String) (arr : List Text) (c : List (String × List Text))
    (s : ProxyServer)
    → member host arr ≡ true
    → lookup host (set_hosts (c ++ (name, arr) ∷ []) s).hosts ≡ some name
unfolding set_hosts
set_hosts-last host name arr c s lists = set_hosts_from-last host name arr c s.hosts lists
