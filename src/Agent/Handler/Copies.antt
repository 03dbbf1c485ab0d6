-- ===== src/Agent/Handler/Copies.antt =====
-- portal_agent/handler.go: the loops of serveHTTP that copy a header, entry by entry.
use http_portal.Base.{
  IsMap, HasValues, lookup-append, insert-new, insert-last, ◌≡◌, ◌≢◌, refl, sym, ap, ◌∙◌, String,
  none, some, List, [], ◌∷◌, ◌++◌, append-nil, append_assoc, Text, Header, header_add, lookup,
  string_eq, arith,
}
use text.Mathlib.TextEquality.{eq_iff}
use text.Mathlib.TextPositions.{eq_refl}
use http_portal.Agent.Handler.{add_values, add_all}

-- Header.Add for each value, and for each entry of a map: the entries come behind what was there.
abbrev pub Apart : Header → Header → Type 0
Apart [] h = Unit
Apart ((key, values) ∷ more) h = (lookup key h ≡ none) × Apart more h

Apart-grow :
    (key : String) (values : List Text) (more h : Header)
    → lookup key more ≡ none
    → Apart more h
    → Apart more (h ++ (key, values) ∷ [])
unfolding lookup
Apart-grow key values [] h new apart = tt
Apart-grow key values ((k, v) ∷ more) h new (first, apart) = (
  ground
      (arith, lookup-append k h ((key, values) ∷ []) first, eq_iff key k, eq_iff k key, eq_refl k),
  Apart-grow key values more h (ground arith) apart,
)

add_values-more :
    (key : String) (vs us : List Text) (h : Header)
    → lookup key h ≡ none
    → add_values key vs (h ++ (key, us) ∷ []) ≡ h ++ (key, us ++ vs) ∷ []
unfolding add_values header_add lookup
add_values-more key [] us h new = rw (append-nil) refl
add_values-more key (v ∷ vs) us h new =
    let found : lookup key (h ++ (key, us) ∷ []) ≡ some us =
      lookup-append key h ((key, us) ∷ []) new ∙ ground (arith, eq_refl key) in
    rw (found, insert-last key us (us ++ v ∷ []) h new)
      (add_values-more key vs (us ++ v ∷ []) h new
        ∙ ap (λ x. h ++ (key, x) ∷ []) (append_assoc us (v ∷ []) vs))

pub add_values-new :
    (key : String) (vs : List Text) (h : Header)
    → vs ≢ []
    → lookup key h ≡ none
    → add_values key vs h ≡ h ++ (key, vs) ∷ []
unfolding add_values header_add
add_values-new key [] h full new = absurd (full refl)
add_values-new key (v ∷ vs) h full new =
    rw (new, insert-new key (v ∷ []) h new) (add_values-more key vs (v ∷ []) h new)

add_all-append :
    (more h : Header) → IsMap more → HasValues more → Apart more h → add_all more h ≡ h ++ more
unfolding add_all
add_all-append [] h m v apart = sym (append-nil h)
add_all-append ((k, vs) ∷ more) h (new, m) (full, v) (first, apart) =
    ap (add_all more) (add_values-new k vs h full first)
    ∙ add_all-append more (h ++ (k, vs) ∷ []) m v (Apart-grow k vs more h new apart)
    ∙ append_assoc h ((k, vs) ∷ []) more

Apart-empty : (h : Header) → Apart h []
unfolding lookup
Apart-empty [] = tt
Apart-empty ((k, v) ∷ h) = (refl, Apart-empty h)

-- Into an empty header, the loop copies the map as it is.
pub add_all-copy : (h : Header) → IsMap h → HasValues h → add_all h [] ≡ h
add_all-copy h m v = add_all-append h [] m v (Apart-empty h)
