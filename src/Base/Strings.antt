-- ===== src/Base/Strings.antt =====
-- Go strings two ways: a native `String` where the program only compares, joins or logs it (method
-- and header names, client names, messages), and its bytes where the program walks it.
use Prim.Native.Nat.{ℕ}
use Prim.Native.Char.{code}
use Prim.Native.String.{String}
use mathlib.Core.Path.{◌≡◌, refl}
use mathlib.Core.Logic.{◌↔◌}
use mathlib.Core.Bool.{Bool, true, false, ◌&&◌}
use mathlib.Core.List.{List, [], ◌∷◌}
use native.Mathlib.Omega.{arith}
use text.Mathlib.Text.{◌==◌ as native_equal}
use text.Mathlib.TextEquality.{eq_iff}
use http_portal.Base.Tests.{eqb, eqb_iff}

abbrev pub Text : Type 0
Text = List ℕ

-- The bytes of an ASCII text.
abbrev pub ascii : String → Text
ascii String.[] = []
ascii (String.◌∷◌ letter rest) = code letter ∷ ascii rest

unfoldable pub same_text : Text → Text → Bool
same_text [] [] = true
same_text (a ∷ s) (b ∷ t) = eqb a b && same_text s t
same_text _ _ = false

pub same_text_sound : (s t : Text) → same_text s t ≡ true → s ≡ t
unfolding same_text
same_text_sound [] [] h = refl
same_text_sound (a ∷ s) (b ∷ t) h = ground (arith, same_text_sound s t)
same_text_sound _ _ h = ground arith

pub same_text_refl : (s : Text) → same_text s s ≡ true
unfolding same_text
same_text_refl [] = refl
same_text_refl (a ∷ s) = ground (arith, same_text_refl s)

pub same_text_iff : (s t : Text) → (same_text s t ≡ true) ↔ (s ≡ t)
same_text_iff s t = (same_text_sound s t, λ e. ground (arith, same_text_refl s, e))

-- Keys that can be compared, as those of a Go map can.
pub record Comparable {ℓ} (K : Type ℓ) : Type ℓ where
  pub equal : K → K → Bool
  pub equal_iff : (x y : K) → (equal x y ≡ true) ↔ (x ≡ y)

instance abbrev pub text_eq : Comparable Text
text_eq = record { equal = same_text; equal_iff = same_text_iff }

instance abbrev pub string_eq : Comparable String
string_eq = record { equal = native_equal; equal_iff = eq_iff }

instance abbrev pub nat_eq : Comparable ℕ
nat_eq = record { equal = eqb; equal_iff = eqb_iff }

infix 50 ◌==◌
abbrev pub ◌==◌ {ℓ} : {K : Type ℓ} ⦃key : Comparable K⦄ → K → K → Bool
◌==◌ ⦃key⦄ x y = key.equal x y
