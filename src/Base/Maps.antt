-- ===== src/Base/Maps.antt =====
-- Go maps as association lists. `insert` is `m[k] = v`, `delete` the built-in of that name.
use mathlib.Core.Path.{◌≡◌, refl}
use mathlib.Core.Option.{Option, none, some}
use mathlib.Core.List.{List, [], ◌∷◌}
use native.Mathlib.Omega.{arith}
use http_portal.Base.Tests.{if◌then◌else◌}
use http_portal.Base.Strings.{Comparable, ◌==◌}

module _ {ℓ κ} {K : Type ℓ} {V : Type κ} ⦃keys : Comparable K⦄ where
  unfoldable pub lookup : K → List (K × V) → Option V
  lookup key [] = none
  lookup key ((at, value) ∷ rest) = if at == key then some value else lookup key rest

  unfoldable pub insert : K → V → List (K × V) → List (K × V)
  insert key new [] = (key, new) ∷ []
  insert key new ((at, value) ∷ rest) =
      if at == key then (key, new) ∷ rest else (at, value) ∷ insert key new rest

  unfoldable pub delete : K → List (K × V) → List (K × V)
  delete key [] = []
  delete key ((at, value) ∷ rest) =
      if at == key then delete key rest else (at, value) ∷ delete key rest

  pub lookup-delete :
      (gone asked : K) (entries : List (K × V))
      → lookup asked (delete gone entries) ≡ (if gone == asked then none else lookup asked entries)
  unfolding delete lookup
  lookup-delete gone asked [] = ground arith
  lookup-delete gone asked ((at, value) ∷ rest) = ground (
    arith,
    lookup-delete gone asked rest,
    keys.equal_iff gone asked,
    keys.equal_iff at gone,
    keys.equal_iff at asked,
  )

  pub lookup-insert :
      (put asked : K) (new : V) (entries : List (K × V))
      → lookup asked (insert put new entries)
        ≡ (if put == asked then some new else lookup asked entries)
  unfolding insert lookup
  lookup-insert put asked new [] = refl
  lookup-insert put asked new ((at, value) ∷ rest) = ground (
    arith,
    lookup-insert put asked new rest,
    keys.equal_iff put asked,
    keys.equal_iff at put,
    keys.equal_iff at asked,
  )
