-- ===== src/Agent/Websocket/Lines.antt =====
-- How a service reads the handshake of portal_agent/handler.go line by line, for the field
-- Sec-WebSocket-Protocol.
use http_portal.Base.{
  ℕ, ◌≡◌, refl, ap, sym, inl, inr, last_index, Bool-cases, ◌∙◌, Bool, true, false, Option, none,
  some, List, [], ◌∷◌, ◌++◌, Text, ascii, has_prefix, to_lower, drop, take, zero, suc, split,
  if◌then◌else◌, append_assoc, arith,
}
use http_portal.Portal.Websocket.Protocols.{NoByte, split-front}
use http_portal.Agent.Websocket.{has_byte, line, remove_zone, bracket_at, zone_at}
use http_portal.Agent.Websocket.Positions.{has_byte-append}

-- The line is the field; names of fields have no case.
unfoldable pub is_offer : Text → Bool
is_offer l = has_prefix (to_lower l) (ascii "sec-websocket-protocol:")

unfoldable pub first_offer : List Text → Option Text
first_offer [] = none
first_offer (l ∷ ls) = let rest = first_offer ls in if is_offer l then some (drop 23 l) else rest

-- The value of the first field of that name in a text of lines.
unfoldable pub offered : Text → Option Text
offered t = first_offer (split 10 t)

pub NoByte-append : (b : ℕ) (s t : Text) → NoByte b s → NoByte b t → NoByte b (s ++ t)
NoByte-append b [] t h k = k
NoByte-append b (c ∷ s) t (first, h) k = (first, NoByte-append b s t h k)

pub has_byte-NoByte : (b : ℕ) (s : Text) → has_byte b s ≡ false → NoByte b s
unfolding has_byte
has_byte-NoByte b [] h = tt
has_byte-NoByte b (c ∷ s) h = (ground (arith, h), has_byte-NoByte b s (ground (arith, h)))

pub NoByte-has_byte : (b : ℕ) (s : Text) → NoByte b s → has_byte b s ≡ false
unfolding has_byte
NoByte-has_byte b [] h = refl
NoByte-has_byte b (c ∷ s) (first, h) = rw first (NoByte-has_byte b s h)

split-line :
    (t rest : Text)
    → has_byte 10 t ≡ false
    → split 10 (line t ++ rest) ≡ (t ++ 13 ∷ []) ∷ split 10 rest
split-line t rest h =
    ap (split 10) (append_assoc t (13 ∷ 10 ∷ []) rest)
    ∙ ap (split 10) (sym (append_assoc t (13 ∷ []) (10 ∷ rest)))
    ∙ split-front 10 (t ++ 13 ∷ []) rest
        (NoByte-append 10 t (13 ∷ []) (has_byte-NoByte 10 t h) (refl, tt))

-- A line of another field is passed over.
pub offered-other :
    (t rest : Text)
    → has_byte 10 t ≡ false
    → is_offer (t ++ 13 ∷ []) ≡ false
    → offered (line t ++ rest) ≡ offered rest
unfolding offered first_offer
offered-other t rest h other = ap first_offer (split-line t rest h) ∙ rw other refl

pub offered-here :
    (t rest : Text)
    → has_byte 10 t ≡ false
    → is_offer (t ++ 13 ∷ []) ≡ true
    → offered (line t ++ rest) ≡ some (drop 23 (t ++ 13 ∷ []))
unfolding offered first_offer
offered-here t rest h here = ap first_offer (split-line t rest h) ∙ rw here refl

pub has_byte-to_lower : (s : Text) → has_byte 10 s ≡ false → has_byte 10 (to_lower s) ≡ false
unfolding has_byte
has_byte-to_lower [] h = refl
has_byte-to_lower (c ∷ s) h = ground (arith, has_byte-to_lower s)

has_byte-take : (b n : ℕ) (s : Text) → has_byte b s ≡ false → has_byte b (take n s) ≡ false
unfolding has_byte
has_byte-take b zero s h = refl
has_byte-take b (suc n) [] h = refl
has_byte-take b (suc n) (c ∷ s) h = ground (arith, has_byte-take b n s)

has_byte-drop : (b n : ℕ) (s : Text) → has_byte b s ≡ false → has_byte b (drop n s) ≡ false
unfolding has_byte
has_byte-drop b zero s h = h
has_byte-drop b (suc n) [] h = refl
has_byte-drop b (suc n) (c ∷ s) h = has_byte-drop b n s (ground (arith, h))

zone_at-has_byte :
    (b : ℕ) (host : Text) (i : ℕ) (o : Option ℕ)
    → has_byte b host ≡ false
    → has_byte b (zone_at host i o) ≡ false
unfolding zone_at
zone_at-has_byte b host i none h = h
zone_at-has_byte b host i (some j) h =
    rw (has_byte-append, has_byte-take b j host h) (has_byte-drop b i host h)

bracket_at-has_byte :
    (b : ℕ) (host : Text) (o : Option ℕ)
    → has_byte b host ≡ false
    → has_byte b (bracket_at host o) ≡ false
unfolding bracket_at
bracket_at-has_byte b host none h = h
bracket_at-has_byte b host (some i) h = zone_at-has_byte b host i (last_index 37 (take i host)) h

pub remove_zone-has_byte :
    (b : ℕ) (host : Text) → has_byte b host ≡ false → has_byte b (remove_zone host) ≡ false
unfolding remove_zone
remove_zone-has_byte b host h = elim (Bool-cases (has_prefix host (ascii "["))) [
  | inl at ↦ rw at (bracket_at-has_byte b host (last_index 93 host) h)
  | inr plain ↦ rw plain h
]
