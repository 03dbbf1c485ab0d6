-- ===== src/Agent/Websocket/Positions.antt =====
-- The first and the last position of a byte in a text.
use http_portal.Base.{
  ℕ, ◌<◌, ◌≡◌, refl, false, ◌||◌, none, some, [], ◌∷◌, ◌++◌, length, Text, last_index, arith,
  Option-cases, inl, inr,
}
use http_portal.Agent.Websocket.{has_byte, index}

pub has_byte-append : (b : ℕ) (s t : Text) → has_byte b (s ++ t) ≡ (has_byte b s || has_byte b t)
unfolding has_byte
has_byte-append b [] t = refl
has_byte-append b (c ∷ s) t = ground (arith, has_byte-append b s t)

pub last_index-none : (b : ℕ) (s : Text) → has_byte b s ≡ false → last_index b s ≡ none
unfolding has_byte last_index
last_index-none b [] h = refl
last_index-none b (c ∷ s) h = ground (arith, last_index-none b s)

-- The last of a byte that does not come again.
pub last_index-append :
    (b : ℕ) (s t : Text) → has_byte b t ≡ false → last_index b (s ++ b ∷ t) ≡ some (length s)
unfolding last_index
last_index-append b [] t h = rw (last_index-none b t h) (ground arith)
last_index-append b (c ∷ s) t h = rw (last_index-append b s t h) refl

pub last_index-front :
    (b : ℕ) (s t : Text) → has_byte b t ≡ false → last_index b (s ++ t) ≡ last_index b s
unfolding last_index
last_index-front b [] t h = last_index-none b t h
last_index-front b (c ∷ s) t h = rw (last_index-front b s t h) refl

pub last_index-bound : (b : ℕ) (s : Text) (i : ℕ) → last_index b s ≡ some i → i < length s
unfolding last_index
last_index-bound b [] i e = cc
last_index-bound b (c ∷ s) i e = elim (Option-cases (last_index b s)) [
  | inl new ↦ ground (arith, new)
  | inr (j, later) ↦ ground (arith, last_index-bound b s j later)
]

-- The first of a byte that did not come before.
pub index-append :
    (b : ℕ) (s t : Text) → has_byte b s ≡ false → index b (s ++ b ∷ t) ≡ some (length s)
unfolding index has_byte
index-append b [] t h = ground arith
index-append b (c ∷ s) t h = ground (arith, index-append b s t)
