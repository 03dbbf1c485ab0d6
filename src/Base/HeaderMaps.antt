-- ===== src/Base/HeaderMaps.antt =====
-- http.Header as a Go map: no key twice, and how its entries are copied.
use Prim.Native.String.{String}
use mathlib.Core.Path.{◌≡◌, refl, subst}
use mathlib.Core.Logic.{◌≢◌, inl, inr}
use mathlib.Core.Option.{none}
use mathlib.Core.List.{List, [], ◌∷◌, ◌++◌}
use native.Mathlib.Omega.{arith}
use text.Mathlib.TextEquality.{eq_iff}
use text.Mathlib.TextPositions.{eq_refl}
use http_portal.Base.Tests.{Bool-cases}
use http_portal.Base.Strings.{Text, string_eq, ◌==◌}
use http_portal.Base.Maps.{lookup, insert, lookup-insert}
use http_portal.Base.Headers.{Header}

-- No key twice, as in a Go map, and no key without a value, as in a header that was read.
abbrev pub IsMap : Header → Type 0
IsMap [] = Unit
IsMap ((key, values) ∷ more) = (lookup key more ≡ none) × IsMap more

abbrev pub HasValues : Header → Type 0
HasValues [] = Unit
HasValues ((key, values) ∷ more) = (values ≢ []) × HasValues more

pub lookup-append :
    (key : String) (h g : Header) → lookup key h ≡ none → lookup key (h ++ g) ≡ lookup key g
unfolding lookup
lookup-append key [] g new = refl
lookup-append key ((k, v) ∷ h) g new = ground (arith, lookup-append key h g)

-- A new key comes last; the last key is replaced.
pub insert-new :
    (key : String) (values : List Text) (h : Header)
    → lookup key h ≡ none
    → insert key values h ≡ h ++ (key, values) ∷ []
unfolding lookup insert
insert-new key values [] new = refl
insert-new key values ((k, v) ∷ h) new = ground (arith, insert-new key values h)

pub insert-last :
    (key : String) (old values : List Text) (h : Header)
    → lookup key h ≡ none
    → insert key values (h ++ (key, old) ∷ []) ≡ h ++ (key, values) ∷ []
unfolding lookup insert
insert-last key old values [] new = ground (arith, eq_refl key)
insert-last key old values ((k, v) ∷ h) new = ground (arith, insert-last key old values h)

pub insert-IsMap :
    (key : String) (values : List Text) (h : Header) → IsMap h → IsMap (insert key values h)
unfolding insert lookup
insert-IsMap key values [] m = (refl, tt)
insert-IsMap key values ((k, v) ∷ h) (new, m) = elim (Bool-cases (k == key)) [
  | inl same ↦ rw same (subst (λ x. lookup x h ≡ none) ((eq_iff k key).0 same) new, m)
  | inr other ↦ rw other (
    ground (arith, lookup-insert key k values h, eq_iff key k, eq_iff k key, eq_refl k),
    insert-IsMap key values h m,
  )
]

pub insert-HasValues :
    (key : String) (values : List Text) (h : Header)
    → values ≢ []
    → HasValues h
    → HasValues (insert key values h)
unfolding insert
insert-HasValues key values [] some_ all = (some_, tt)
insert-HasValues key values ((k, v) ∷ h) some_ (first, all) = elim (Bool-cases (k == key)) [
  | inl same ↦ rw same (some_, all)
  | inr other ↦ rw other (first, insert-HasValues key values h some_ all)
]
