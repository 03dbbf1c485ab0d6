-- ===== src/Portal/Websocket/Protocols.antt =====
-- portal/websocket.go: the list that GetWebsocketConfig reads of a Sec-Websocket-Protocol.
use http_portal.Base.{
  ℕ, ◌≡◌, ◌≢◌, refl, sym, ap, subst, ◌∙◌, true, false, List, [], ◌∷◌, ◌++◌, map, Text, ascii, eqb,
  text_eq, ◌==◌, arith, trim_left, trim_right, trim_space, is_space, split, push_first, join,
  Bool-cases, inl, inr, All, same_text, trim_space_idem, split-trim_space, push_space, Parts,
  split-Parts, join-split, keep_space, trim_right_lem,
}
use http_portal.Portal.Websocket.{protocols_of}

-- A text without a byte.
abbrev pub NoByte : ℕ → Text → Type 0
NoByte b [] = Unit
NoByte b (c ∷ s) = (eqb c b ≡ false) × NoByte b s

pub trim_left-NoByte : (b : ℕ) (s : Text) → NoByte b s → NoByte b (trim_left s)
unfolding trim_left
trim_left-NoByte b [] h = tt
trim_left-NoByte b (c ∷ s) (first, h) = elim (Bool-cases (is_space c)) [
  | inl space ↦ rw space (trim_left-NoByte b s h)
  | inr letter ↦ rw letter (first, h)
]

keep_space-NoByte : (b c : ℕ) (s : Text) → eqb c b ≡ false → NoByte b s → NoByte b (keep_space c s)
unfolding keep_space
keep_space-NoByte b c [] first h = elim (Bool-cases (is_space c)) [
  | inl space ↦ rw space tt
  | inr letter ↦ rw letter (first, tt)
]
keep_space-NoByte b c (d ∷ s) first h = (first, h)

pub trim_right-NoByte : (b : ℕ) (s : Text) → NoByte b s → NoByte b (trim_right s)
unfolding trim_right
trim_right-NoByte b [] h = tt
trim_right-NoByte b (c ∷ s) (first, h) =
    subst (NoByte b) (sym (trim_right_lem c s))
      (keep_space-NoByte b c (trim_right s) first (trim_right-NoByte b s h))

map-NoByte : (b : ℕ) (ps : List Text) → All (NoByte b) ps → All (NoByte b) (map trim_space ps)
unfolding trim_space
map-NoByte b [] h = tt
map-NoByte b (p ∷ ps) (first, h) =
    (trim_right-NoByte b (trim_left p) (trim_left-NoByte b p first), map-NoByte b ps h)

pub push-NoByte :
    (b c : ℕ) (ps : List Text)
    → eqb c b ≡ false
    → All (NoByte b) ps
    → All (NoByte b) (push_first c ps)
unfolding push_first
push-NoByte b c [] other h = ((other, tt), tt)
push-NoByte b c (p ∷ ps) other (first, h) = ((other, first), h)

split-NoByte : (b : ℕ) (s : Text) → All (NoByte b) (split b s)
unfolding split
split-NoByte b [] = (tt, tt)
split-NoByte b (c ∷ s) = elim (Bool-cases (eqb c b)) [
  | inl at ↦ rw at (tt, split-NoByte b s)
  | inr other ↦ rw other (push-NoByte b c (split b s) other (split-NoByte b s))
]

pub split-front : (b : ℕ) (p s : Text) → NoByte b p → split b (p ++ b ∷ s) ≡ p ∷ split b s
unfolding split push_first
split-front b [] s h = ground arith
split-front b (c ∷ p) s (first, h) = rw (first, split-front b p s h) refl

split-whole : (b : ℕ) (p : Text) → NoByte b p → split b p ≡ p ∷ []
unfolding split push_first
split-whole b [] h = refl
split-whole b (c ∷ p) (first, h) = rw (first, split-whole b p h) refl

-- A list of parts joined as clientHandshake joins it, and split again.
split-join :
    (ps : List Text)
    → Parts ps
    → All (NoByte 44) ps
    → map trim_space (split 44 (join (ascii ", ") ps)) ≡ map trim_space ps
unfolding join split
split-join [] h free = absurd h
split-join (p ∷ []) h (first, free) = ap (map trim_space) (split-whole 44 p first)
split-join (p ∷ q ∷ ps) h (first, free) =
    ap (map trim_space) (split-front 44 p (32 ∷ join (ascii ", ") (q ∷ ps)) first)
    ∙ ap (◌∷◌ (trim_space p)) (
        push_space 32 (split 44 (join (ascii ", ") (q ∷ ps))) refl
          (split-Parts 44 (join (ascii ", ") (q ∷ ps)))
        ∙ split-join (q ∷ ps) tt free)

map_idem : (ps : List Text) → map trim_space (map trim_space ps) ≡ map trim_space ps
map_idem [] = refl
map_idem (p ∷ ps) = rw (trim_space_idem p, map_idem ps) refl

map-Parts : (ps : List Text) → Parts ps → Parts (map trim_space ps)
map-Parts [] h = h
map-Parts (p ∷ ps) h = tt

first_part : (p : Text) → p ∷ [] ≡ [] ∷ [] → p ≡ []
first_part p e = cc

single :
    (ps : List Text) (u : Text)
    → join (44 ∷ []) ps ≡ u
    → map trim_space ps ≡ [] ∷ []
    → trim_space u ≡ []
unfolding join
single [] u e m = cc
single (p ∷ []) u e m = ap trim_space (sym e) ∙ first_part (trim_space p) m
single (p ∷ q ∷ ps) u e m = cc

-- The join of the trimmed parts of a trimmed text is not empty.
join-full :
    (u : Text)
    → trim_space u ≡ u
    → u ≢ []
    → trim_space (join (ascii ", ") (map trim_space (split 44 u))) ≢ []
unfolding split trim_space trim_right trim_left
join-full u whole full empty =
    let ps = map trim_space (split 44 u) in
    let back : map trim_space (split 44 (join (ascii ", ") ps)) ≡ ps =
      split-join ps (map-Parts (split 44 u) (split-Parts 44 u))
        (map-NoByte 44 (split 44 u) (split-NoByte 44 u))
      ∙ map_idem (split 44 u) in
    let one : ps ≡ [] ∷ [] =
      sym back
      ∙ sym (split-trim_space 44 refl (join (ascii ", ") ps))
      ∙ ap (λ x. map trim_space (split 44 x)) empty in
    full (sym whole ∙ single (split 44 u) u (join-split 44 u) one)

not_empty : (t : Text) → t ≢ [] → (t == []) ≡ false
unfolding same_text
not_empty [] full = absurd (full refl)
not_empty (c ∷ t) full = refl

-- The protocols that GetWebsocketConfig reads of a header, joined by a comma and a space, are read as
-- the same list.
pub protocols_of-join :
    (s : Text) → protocols_of (join (ascii ", ") (protocols_of s)) ≡ protocols_of s
unfolding protocols_of same_text join trim_space trim_left trim_right
protocols_of-join s = elim (Bool-cases (trim_space s == [])) [
  | inl bare ↦ rw bare refl
  | inr full ↦
      let u = trim_space s in
      let ps = map trim_space (split 44 u) in
      rw
        (
          full,
          not_empty (trim_space (join (ascii ", ") ps)) (
              join-full u (trim_space_idem s) (λ e. true_false (sym (ap (λ x. x == []) e) ∙ full))),
        )
        (split-trim_space 44 refl (join (ascii ", ") ps)
          ∙ split-join ps (map-Parts (split 44 u) (split-Parts 44 u))
              (map-NoByte 44 (split 44 u) (split-NoByte 44 u))
          ∙ map_idem (split 44 u))
]
  where
    true_false : true ≢ false
    true_false e = grind arith
