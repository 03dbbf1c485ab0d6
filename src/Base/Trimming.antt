-- ===== src/Base/Trimming.antt =====
-- How the package strings' TrimSpace and Split go together, on ASCII texts.
use Prim.Native.Nat.{ℕ}
use mathlib.Core.Path.{◌≡◌, refl, sym, ap, ◌∙◌}
use mathlib.Core.Logic.{inl, inr}
use mathlib.Core.Bool.{true, false}
use mathlib.Core.List.{List, [], ◌∷◌, ◌++◌, map}
use native.Mathlib.Omega.{arith}
use http_portal.Base.Tests.{if◌then◌else◌, eqb, eqb_iff, Bool-cases}
use http_portal.Base.Strings.{Text}
use http_portal.Base.Texts.{is_space, trim_left, trim_right, trim_space, split, push_first, join}

-- What trim_right does with one more letter in front.
unfoldable pub keep_space : ℕ → Text → Text
keep_space c [] = if is_space c then [] else c ∷ []
keep_space c (d ∷ s) = c ∷ d ∷ s

pub trim_right_lem : (c : ℕ) (s : Text) → trim_right (c ∷ s) ≡ keep_space c (trim_right s)
unfolding trim_right keep_space
trim_right_lem c s = by_rest (trim_right s)
  where
    by_rest :
        (r : Text)
        → (elim r [ [] ↦ if is_space c then [] else c ∷ [] | d ∷ rest ↦ c ∷ d ∷ rest ])
          ≡ keep_space c r
    by_rest [] = refl
    by_rest (d ∷ rest) = refl

trim_left-keep :
    (c : ℕ) (r : Text)
    → trim_left (keep_space c r) ≡ (if is_space c then trim_left r else keep_space c r)
unfolding keep_space trim_left
trim_left-keep c [] = ground arith
trim_left-keep c (d ∷ r) = refl

trim-commute : (s : Text) → trim_left (trim_right s) ≡ trim_right (trim_left s)
unfolding trim_left trim_right
trim-commute [] = refl
trim-commute (c ∷ s) =
    ap trim_left (trim_right_lem c s)
    ∙ trim_left-keep c (trim_right s)
    ∙ elim (Bool-cases (is_space c)) [
      | inl space ↦ rw space (trim-commute s)
      | inr letter ↦ rw letter (sym (trim_right_lem c s))
    ]

trim_left_idem : (s : Text) → trim_left (trim_left s) ≡ trim_left s
unfolding trim_left
trim_left_idem [] = refl
trim_left_idem (c ∷ s) = ground (arith, trim_left_idem s)

keep_space-keep :
    (c : ℕ) (r : Text) → trim_right r ≡ r → trim_right (keep_space c r) ≡ keep_space c r
unfolding keep_space trim_right
keep_space-keep c [] h = ground arith
keep_space-keep c (d ∷ r) h = trim_right_lem c (d ∷ r) ∙ ap (keep_space c) h

trim_right_idem : (s : Text) → trim_right (trim_right s) ≡ trim_right s
unfolding trim_right
trim_right_idem [] = refl
trim_right_idem (c ∷ s) =
    ap trim_right (trim_right_lem c s)
    ∙ keep_space-keep c (trim_right s) (trim_right_idem s)
    ∙ sym (trim_right_lem c s)

pub trim_space_idem : (s : Text) → trim_space (trim_space s) ≡ trim_space s
unfolding trim_space
trim_space_idem s =
    ap trim_right (trim-commute (trim_left s))
    ∙ trim_right_idem (trim_left (trim_left s))
    ∙ ap trim_right (trim_left_idem s)

trim_right-back : (c : ℕ) (s : Text) → is_space c ≡ true → trim_right (s ++ c ∷ []) ≡ trim_right s
unfolding trim_right
trim_right-back c [] space = rw space refl
trim_right-back c (d ∷ s) space =
    trim_right_lem d (s ++ c ∷ [])
    ∙ ap (keep_space d) (trim_right-back c s space)
    ∙ sym (trim_right_lem d s)

-- A space at the end goes.
pub trim_space-back :
    (c : ℕ) (s : Text) → is_space c ≡ true → trim_space (s ++ c ∷ []) ≡ trim_space s
unfolding trim_space
trim_space-back c s space =
    sym (trim-commute (s ++ c ∷ [])) ∙ ap trim_left (trim_right-back c s space) ∙ trim-commute s

-- A space in front goes.
pub trim_space-front : (c : ℕ) (s : Text) → is_space c ≡ true → trim_space (c ∷ s) ≡ trim_space s
unfolding trim_space trim_left
trim_space-front c s space = rw space refl

-- Split gives one part at least.
abbrev pub Parts : List Text → Type 0
Parts [] = ⊥
Parts (p ∷ ps) = Unit

push_first-Parts : (c : ℕ) (ps : List Text) → Parts (push_first c ps)
unfolding push_first
push_first-Parts c [] = tt
push_first-Parts c (p ∷ ps) = tt

pub split-Parts : (b : ℕ) (s : Text) → Parts (split b s)
unfolding split
split-Parts b [] = tt
split-Parts b (c ∷ s) = elim (Bool-cases (eqb c b)) [
  | inl at ↦ rw at tt
  | inr other ↦ rw other (push_first-Parts c (split b s))
]

-- Spaces at the ends of a text do not change its trimmed parts.
pub push_space :
    (c : ℕ) (ps : List Text)
    → is_space c ≡ true
    → Parts ps
    → map trim_space (push_first c ps) ≡ map trim_space ps
unfolding push_first
push_space c [] space h = absurd h
push_space c (p ∷ ps) space h = ap (λ x. x ∷ map trim_space ps) (trim_space-front c p space)

module _ (b : ℕ) (visible : is_space b ≡ false) where
  not_b : (c : ℕ) → is_space c ≡ true → eqb c b ≡ false
  not_b c space = ground arith

  split-trim_left : (s : Text) → map trim_space (split b (trim_left s)) ≡ map trim_space (split b s)
  unfolding trim_left split
  split-trim_left [] = refl
  split-trim_left (c ∷ s) = elim (Bool-cases (is_space c)) [
    | inl space ↦
        rw (space, not_b c space)
          (split-trim_left s ∙ sym (push_space c (split b s) space (split-Parts b s)))
    | inr letter ↦ rw letter refl
  ]

push_kept : ℕ → List Text → List Text
push_kept c [] = trim_right (c ∷ []) ∷ []
push_kept c (p ∷ ps) = keep_space c p ∷ ps

map-push_first :
    (c : ℕ) (ps : List Text) → map trim_right (push_first c ps) ≡ push_kept c (map trim_right ps)
unfolding push_first push_kept
map-push_first c [] = refl
map-push_first c (p ∷ ps) = ap (λ x. x ∷ map trim_right ps) (trim_right_lem c p)

map-trim_space : (ps : List Text) → map trim_space ps ≡ map trim_left (map trim_right ps)
unfolding trim_space
map-trim_space [] = refl
map-trim_space (p ∷ ps) = rw (map-trim_space ps, trim-commute p) refl

module _ (b : ℕ) (visible : is_space b ≡ false) where
  split-next :
      (c : ℕ) (r s : Text)
      → map trim_right (split b r) ≡ map trim_right (split b s)
      → map trim_right (split b (c ∷ r)) ≡ map trim_right (split b (c ∷ s))
  unfolding split
  split-next c r s h = elim (Bool-cases (eqb c b)) [
    | inl at ↦ rw at (ap (◌∷◌ (trim_right [])) h)
    | inr other ↦
        rw other
          (map-push_first c (split b r) ∙ ap (push_kept c) h ∙ sym (map-push_first c (split b s)))
  ]

  split-keep :
      (c : ℕ) (r : Text)
      → map trim_right (split b (keep_space c r)) ≡ map trim_right (split b (c ∷ r))
  unfolding keep_space split trim_right push_first
  split-keep c [] = elim (Bool-cases (is_space c)) [
    | inl space ↦ rw (space, not_b b visible c space) (ground (arith, space))
    | inr letter ↦ rw letter refl
  ]
  split-keep c (d ∷ r) = refl

  split-trim_right :
      (s : Text) → map trim_right (split b (trim_right s)) ≡ map trim_right (split b s)
  unfolding trim_right
  split-trim_right [] = refl
  split-trim_right (c ∷ s) =
      ap (λ x. map trim_right (split b x)) (trim_right_lem c s)
      ∙ split-keep c (trim_right s)
      ∙ split-next c (trim_right s) s (split-trim_right s)

  pub split-trim_space :
      (s : Text) → map trim_space (split b (trim_space s)) ≡ map trim_space (split b s)
  unfolding trim_space
  split-trim_space s =
      map-trim_space (split b (trim_right (trim_left s)))
      ∙ ap (map trim_left) (split-trim_right (trim_left s))
      ∙ sym (map-trim_space (split b (trim_left s)))
      ∙ split-trim_left b visible s

-- Split takes apart what a join with the byte alone puts together.
join-push :
    (b c : ℕ) (ps : List Text) → Parts ps → join (b ∷ []) (push_first c ps) ≡ c ∷ join (b ∷ []) ps
unfolding push_first join
join-push b c [] h = absurd h
join-push b c (p ∷ []) h = refl
join-push b c (p ∷ q ∷ ps) h = refl

join-next : (b : ℕ) (ps : List Text) → Parts ps → join (b ∷ []) ([] ∷ ps) ≡ b ∷ join (b ∷ []) ps
unfolding join
join-next b [] h = absurd h
join-next b (p ∷ ps) h = refl

pub join-split : (b : ℕ) (s : Text) → join (b ∷ []) (split b s) ≡ s
unfolding split join
join-split b [] = refl
join-split b (c ∷ s) = elim (Bool-cases (eqb c b)) [
  | inl at ↦ rw at (
      join-next b (split b s) (split-Parts b s)
      ∙ ap (◌∷◌ b) (join-split b s)
      ∙ ap (λ x. x ∷ s) (sym ((eqb_iff c b).0 at)))
  | inr other ↦ rw other (join-push b c (split b s) (split-Parts b s) ∙ ap (◌∷◌ c) (join-split b s))
]
