-- ===== src/Agent/Websocket/Addresses.antt =====
-- portal_agent/handler.go: what removeZone and parseAuthority make of a host.
use http_portal.Base.{
  ℕ, ◌+◌, ◌≡◌, refl, sym, ap, ◌∙◌, true, false, some, [], ◌∷◌, ◌++◌, length, take, drop, Text, eqb,
  has_prefix, last_index, arith, take-append_length, drop-append_length, length-append, text_eq,
  append_assoc, inl, inr, Option-cases,
}
use http_portal.Portal.Request.{Url}
use http_portal.Agent.Websocket.{
  has_byte, index, remove_zone, bracket_at, zone_at, port_of, splits, split_at, bracketed,
  join_host_port, parse_authority, with_port,
}
use http_portal.Agent.Websocket.Positions.{
  has_byte-append, last_index-none, last_index-append, last_index-front, last_index-bound,
  index-append,
}

cut :
    (xs z t : Text)
    → zone_at ((xs ++ 37 ∷ z) ++ t) (length (xs ++ 37 ∷ z)) (some (length xs)) ≡ xs ++ t
unfolding zone_at
cut xs z t =
    ap (λ host. take (length xs) host ++ drop (length (xs ++ 37 ∷ z)) ((xs ++ 37 ∷ z) ++ t))
      (append_assoc xs (37 ∷ z) t)
    ∙ ap (λ front. front ++ drop (length (xs ++ 37 ∷ z)) ((xs ++ 37 ∷ z) ++ t))
        (take-append_length xs ((37 ∷ z) ++ t))
    ∙ ap (λ back. xs ++ back) (drop-append_length (xs ++ 37 ∷ z) t)

bracket_at_lem :
    (xs z t : Text)
    → has_byte 37 z ≡ false
    → bracket_at ((xs ++ 37 ∷ z) ++ t) (some (length (xs ++ 37 ∷ z))) ≡ xs ++ t
unfolding bracket_at
bracket_at_lem xs z t no_percent =
    ap (λ front. zone_at ((xs ++ 37 ∷ z) ++ t) (length (xs ++ 37 ∷ z)) (last_index 37 front))
      (take-append_length (xs ++ 37 ∷ z) t)
    ∙ ap (zone_at ((xs ++ 37 ∷ z) ++ t) (length (xs ++ 37 ∷ z)))
        (last_index-append 37 xs z no_percent)
    ∙ cut xs z t

-- Of the address in brackets, what stands between its last % and its bracket, the last one of the
-- text, is cut out with that %; all else stays.
remove_zone_lem :
    (a z rest : Text)
    → has_byte 37 z ≡ false
    → has_byte 93 rest ≡ false
    → remove_zone (((91 ∷ a) ++ 37 ∷ z) ++ 93 ∷ rest) ≡ (91 ∷ a) ++ 93 ∷ rest
unfolding remove_zone has_prefix
remove_zone_lem a z rest no_percent no_bracket =
    ap (bracket_at (((91 ∷ a) ++ 37 ∷ z) ++ 93 ∷ rest))
      (last_index-append 93 ((91 ∷ a) ++ 37 ∷ z) rest no_bracket)
    ∙ bracket_at_lem (91 ∷ a) z (93 ∷ rest) no_percent

-- A host with a port, a name, and an address in brackets without a port.
abbrev pub IsName : Text → Type 0
IsName host = (has_byte 58 host ≡ false) × (has_byte 91 host ≡ false) × (has_byte 93 host ≡ false)

starts-name :
    (host t : Text) → has_byte 91 host ≡ false → has_prefix (host ++ 58 ∷ t) (91 ∷ []) ≡ false
unfolding has_byte has_prefix
starts-name [] t h = refl
starts-name (c ∷ host) t h = ground arith

module _ (port : Text) (no_colon : has_byte 58 port ≡ false) (no_open : has_byte 91 port ≡ false)
    (no_close : has_byte 93 port ≡ false) where
  name-splits : (host : Text) → IsName host → splits (host ++ 58 ∷ port) ≡ true
  unfolding splits split_at has_byte
  name-splits host (colon, left, right) =
      rw
        (
          last_index-append 58 host port no_colon,
          split_at,
          starts-name host port left,
          take-append_length host (58 ∷ port),
          has_byte-append 91 host (58 ∷ port),
          has_byte-append 93 host (58 ∷ port),
          left,
          right,
          colon,
          no_open,
          no_close,
        )
        refl

  name-whole : (host : Text) → IsName host → splits host ≡ false
  unfolding splits split_at
  name-whole host (colon, left, right) = rw (last_index-none 58 host colon) refl

-- In brackets, a last colon that does not follow the first closing bracket.
apart-splits :
    (s : Text) (close colon : ℕ)
    → last_index 58 (91 ∷ s) ≡ some colon
    → index 93 (91 ∷ s) ≡ some close
    → eqb (close + 1) colon ≡ false
    → splits (91 ∷ s) ≡ false
unfolding splits split_at has_prefix bracketed
apart-splits s close colon last first gap = rw (last, split_at, first, bracketed, gap) refl

abbrev pub IsLiteral : Text → Type 0
IsLiteral v = (has_byte 91 v ≡ false) × (has_byte 93 v ≡ false)

literal-whole : (v : Text) → IsLiteral v → splits (91 ∷ (v ++ 93 ∷ [])) ≡ false
unfolding splits split_at has_byte
literal-whole v (left, right) =
    let same : last_index 58 (91 ∷ (v ++ 93 ∷ [])) ≡ last_index 58 (91 ∷ v) =
      last_index-front 58 (91 ∷ v) (93 ∷ []) refl in
    elim (Option-cases (last_index 58 (91 ∷ v))) [
      | inl without ↦ rw (same ∙ without) refl
      | inr (colon, at) ↦
          apart-splits (v ++ 93 ∷ []) (length (91 ∷ v)) colon (same ∙ at)
            (index-append 93 (91 ∷ v) [] (ground (arith, right)))
            (ground (arith, last_index-bound 58 (91 ∷ v) colon at))
    ]

literal-joined :
    (v port : Text)
    → IsLiteral v
    → has_byte 58 port ≡ false
    → splits (91 ∷ ((91 ∷ (v ++ 93 ∷ [])) ++ (93 ∷ 58 ∷ port))) ≡ false
unfolding has_byte
literal-joined v port (left, right) no_colon =
    apart-splits ((91 ∷ (v ++ 93 ∷ [])) ++ (93 ∷ 58 ∷ port)) (length (91 ∷ 91 ∷ v))
      (length ((91 ∷ 91 ∷ (v ++ 93 ∷ [])) ++ 93 ∷ []))
      (ap (last_index 58) (sym (append_assoc (91 ∷ 91 ∷ (v ++ 93 ∷ [])) (93 ∷ []) (58 ∷ port)))
        ∙ last_index-append 58 ((91 ∷ 91 ∷ (v ++ 93 ∷ [])) ++ 93 ∷ []) port no_colon)
      (ap (index 93) (append_assoc (91 ∷ 91 ∷ v) (93 ∷ []) (93 ∷ 58 ∷ port))
        ∙ index-append 93 (91 ∷ 91 ∷ v) (93 ∷ 58 ∷ port) (ground (arith, right)))
      (ground
        (arith, length-append (91 ∷ 91 ∷ (v ++ 93 ∷ [])) (93 ∷ []), length-append v (93 ∷ [])))

-- The port of a scheme has none of the bytes that matter.
port_of_lem :
    (scheme port : Text)
    → port_of scheme ≡ some port
    → (has_byte 58 port ≡ false) × (has_byte 91 port ≡ false) × (has_byte 93 port ≡ false)
unfolding port_of has_byte
port_of_lem scheme port e = grind arith

colon-inside : (v : Text) → has_byte 58 v ≡ true → has_byte 58 (91 ∷ (v ++ 93 ∷ [])) ≡ true
unfolding has_byte
colon-inside v colons = ground (arith, has_byte-append 58 v (93 ∷ []))

module _ (location : Url) (port : Text) (e : port_of location.scheme ≡ some port) where
  name-joined : IsName location.host → parse_authority location ≡ location.host ++ 58 ∷ port
  unfolding parse_authority with_port join_host_port
  name-joined plain =
      let (no_colon, no_open, no_close) = port_of_lem location.scheme port e in
      rw
        (
          e,
          with_port,
          name-whole port no_colon no_open no_close location.host plain,
          join_host_port,
          plain.0,
        )
        refl

  literal-doubled :
      (v : Text)
      → location.host ≡ 91 ∷ (v ++ 93 ∷ [])
      → has_byte 58 v ≡ true
      → IsLiteral v
      → parse_authority location ≡ 91 ∷ (location.host ++ 93 ∷ 58 ∷ port)
  unfolding parse_authority with_port join_host_port
  literal-doubled v same colons l =
      rw
        (
          e,
          with_port,
          ap splits same ∙ literal-whole v l,
          join_host_port,
          ap (has_byte 58) same ∙ colon-inside v colons,
        )
        refl

-- For a scheme with a port of its own: a host that SplitHostPort takes is dialled as it is; a name
-- gets the scheme's port, and is then taken; an IPv6 address in its one pair of brackets gets
-- a second pair before the port, and what comes out is not taken.
pub parse_authority_lem :
    (location : Url) (port : Text)
    → port_of location.scheme ≡ some port
    → (splits location.host ≡ true → parse_authority location ≡ location.host)
      × (IsName location.host
          → (parse_authority location ≡ location.host ++ 58 ∷ port)
            × (splits (parse_authority location) ≡ true))
      × ((v : Text)
          → location.host ≡ 91 ∷ (v ++ 93 ∷ [])
          → has_byte 58 v ≡ true
          → IsLiteral v
          → (parse_authority location ≡ 91 ∷ (location.host ++ 93 ∷ 58 ∷ port))
            × (splits (parse_authority location) ≡ false))
unfolding parse_authority with_port join_host_port
parse_authority_lem location port e =
    let (no_colon, no_open, no_close) = port_of_lem location.scheme port e in
    (
      λ whole. rw (e, with_port, whole) refl,
      λ plain. (
        name-joined location port e plain,
        ap splits (name-joined location port e plain)
            ∙ name-splits port no_colon no_open no_close location.host plain,
      ),
      λ v same colons l. (
        literal-doubled location port e v same colons l,
        ap splits (literal-doubled location port e v same colons l)
            ∙ ap (λ host. splits (91 ∷ (host ++ 93 ∷ 58 ∷ port))) same
            ∙ literal-joined v port l no_colon,
      ),
    )
