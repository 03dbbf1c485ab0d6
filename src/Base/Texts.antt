-- ===== src/Base/Texts.antt =====
-- What the program uses of the package strings, on the bytes of a text. ToLower and TrimSpace are
-- those of ASCII texts.
use Prim.Native.Nat.{ℕ, suc, ◌+◌}
use mathlib.Core.Bool.{Bool, true, false, ◌&&◌, ◌||◌}
use mathlib.Core.Option.{Option, none, some}
use mathlib.Core.List.{List, [], ◌∷◌, ◌++◌, map}
use http_portal.Base.Tests.{if◌then◌else◌, eqb, leb}
use http_portal.Base.Lists.{length, drop}
use http_portal.Base.Strings.{Text}

-- strings.HasPrefix
unfoldable pub has_prefix : Text → Text → Bool
has_prefix s [] = true
has_prefix [] (p ∷ prefix) = false
has_prefix (c ∷ s) (p ∷ prefix) = eqb c p && has_prefix s prefix

-- strings.Contains
unfoldable pub contains : Text → Text → Bool
contains [] sub = has_prefix [] sub
contains (c ∷ s) sub = let rest = contains s sub in has_prefix (c ∷ s) sub || rest

abbrev pub lower : ℕ → ℕ
lower c = if leb 65 c && leb c 90 then c + 32 else c

-- strings.ToLower
abbrev pub to_lower : Text → Text
to_lower s = map lower s

-- strings.LastIndex of one byte.
unfoldable pub last_index : ℕ → Text → Option ℕ
last_index b [] = none
last_index b (c ∷ s) = elim (last_index b s) [
  | some i ↦ some (suc i)
  | none ↦ if eqb c b then some 0 else none
]

abbrev pub is_space : ℕ → Bool
is_space c = eqb c 32 || leb 9 c && leb c 13

unfoldable pub trim_left : Text → Text
trim_left [] = []
trim_left (c ∷ s) = let rest = trim_left s in if is_space c then rest else c ∷ s

unfoldable pub trim_right : Text → Text
trim_right [] = []
trim_right (c ∷ s) = elim (trim_right s) [
  | [] ↦ if is_space c then [] else c ∷ []
  | d ∷ rest ↦ c ∷ d ∷ rest
]

-- strings.TrimSpace
unfoldable pub trim_space : Text → Text
trim_space s = trim_right (trim_left s)

unfoldable pub push_first : ℕ → List Text → List Text
push_first c [] = (c ∷ []) ∷ []
push_first c (part ∷ parts) = (c ∷ part) ∷ parts

-- strings.Split at one byte.
unfoldable pub split : ℕ → Text → List Text
unfolding push_first
split b [] = [] ∷ []
split b (c ∷ s) = let rest = split b s in if eqb c b then [] ∷ rest else push_first c rest

-- strings.Join
unfoldable pub join : Text → List Text → Text
join sep [] = []
join sep (part ∷ []) = part
join sep (part ∷ next ∷ more) = part ++ (sep ++ join sep (next ∷ more))

-- strings.Replace of the first occurrence only.
unfoldable pub replace_first : Text → Text → Text → Text
replace_first [] old new = if has_prefix [] old then new else []
replace_first (c ∷ s) old new =
    let rest = replace_first s old new in
    if has_prefix (c ∷ s) old then new ++ drop (length old) (c ∷ s) else c ∷ rest
