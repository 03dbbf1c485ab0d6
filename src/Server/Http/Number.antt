-- ===== src/Server/Http/Number.antt =====
-- Go's int, and strconv.Atoi and strconv.Itoa.
use http_portal.Base.{
  ℕ, zero, suc, ◌+◌, ◌*◌, ◌-◌, ◌/◌, ◌%◌, ◌^◌, Option, none, some, [], ◌∷◌, ◌++◌, if◌then◌else◌, eqb,
  ltb, leb, ◌&&◌, Text,
}

pub data ℤ : Type 0 where
  pos negsuc : ℕ → ℤ

-- strconv.Atoi: an optional sign, one decimal digit or more, and no more than 64 bits.
digits : ℕ → Text → Option ℕ
digits acc [] = some acc
digits acc (c ∷ s) =
    let rest = digits (acc * 10 + (c - 48)) s in if leb 48 c && leb c 57 then rest else none

unsigned : Text → Option ℕ
unfolding digits
unsigned [] = none
unsigned (c ∷ s) = digits 0 (c ∷ s)

positive : Option ℕ → Option ℤ
positive none = none
positive (some n) = if ltb n (2 ^ 63) then some (pos n) else none

negative : Option ℕ → Option ℤ
negative none = none
negative (some zero) = some (pos 0)
negative (some (suc n)) = if ltb n (2 ^ 63) then some (negsuc n) else none

unfoldable pub atoi : Text → Option ℤ
unfolding unsigned positive negative
atoi [] = none
atoi (c ∷ s) =
    if eqb c 45
    then negative (unsigned s)
    else if eqb c 43
    then positive (unsigned s)
    else positive (unsigned (c ∷ s))

-- strconv.Itoa. Twenty digits are enough for 64 bits.
decimal : ℕ → ℕ → Text
decimal zero n = []
decimal (suc fuel) n =
    let front = decimal fuel (n / 10) in
    if ltb n 10 then (48 + n) ∷ [] else front ++ (48 + n % 10) ∷ []

unfoldable pub itoa : ℤ → Text
unfolding decimal
itoa (pos n) = decimal 20 n
itoa (negsuc n) = 45 ∷ decimal 20 (n + 1)
