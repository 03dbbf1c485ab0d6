-- ===== src/Core/Wire/Progress.antt =====
-- core/net.go: a Receive takes something off the connection, or fails for good.
use http_portal.Base.{
  ℕ, zero, suc, ◌≤◌, ◌<◌, ◌≡◌, ◌≢◌, refl, ◌⊎◌, inl, inr, String, Bool, true, false, Option, none,
  some, List, [], ◌∷◌, ◌++◌, length, drop, ◌==◌, if◌then◌else◌, arith, string_eq,
}
use http_portal.Core.Errors.{Error, eof, is_close, wrap_error}
use http_portal.Core.Messages.{RpcHeader, Kind, Message, new_message}
use http_portal.Core.Conn.{
  Conn, Outcome, ok, err, panic, Act, Arrival, byte, fault, with_deadline, read_full, read_from,
  write, WriteOutcome, wrote, broke, write_one,
}
use http_portal.Core.Wire.Bytes.{uint32}
use http_portal.Core.Wire.{
  Codec, marshal_body, decode, decode_body, receive_body, receive_frame, receive, lift, send,
  send_frame,
}

read_from-shrinks :
    (n : ℕ) (got : List ℕ) (inbox : List Arrival) → length (read_from n got inbox).1 ≤ length inbox
unfolding read_from
read_from-shrinks zero got inbox = omega arith
read_from-shrinks (suc n) [] [] = omega arith
read_from-shrinks (suc n) (g ∷ got) [] = omega arith
read_from-shrinks (suc n) got (byte b ∷ inbox) =
    omega (arith, read_from-shrinks n (got ++ b ∷ []) inbox)
read_from-shrinks (suc n) [] (fault eof ∷ inbox) = omega arith
read_from-shrinks (suc n) (g ∷ got) (fault eof ∷ inbox) = omega arith
read_from-shrinks (suc n) [] (fault e ∷ inbox) = ground arith
read_from-shrinks (suc n) (g ∷ got) (fault e ∷ inbox) = ground arith

read_from-advances :
    (n : ℕ) (inbox : List Arrival)
    → ((read_from (suc n) [] inbox).0 ≡ err eof)
      ⊎ (length (read_from (suc n) [] inbox).1 < length inbox)
unfolding read_from
read_from-advances n [] = inl refl
read_from-advances n (byte b ∷ inbox) = inr (omega (arith, read_from-shrinks n (b ∷ []) inbox))
read_from-advances n (fault eof ∷ inbox) = inl refl
read_from-advances n (fault e ∷ inbox) = ground arith

module _ (codec : Codec) (new_msg : RpcHeader → Outcome Kind) where
  decode_body-inbox :
      (h : RpcHeader) (m : Message) (n : ℕ) (body : List ℕ) (c : Conn)
      → (decode_body codec h m n body c).1.inbox ≡ c.inbox
  unfolding decode_body lift
  decode_body-inbox h m n body c = ground arith

  decode-inbox :
      (array body : List ℕ) (n : ℕ) (c : Conn)
      → (decode codec new_msg array body n c).1.inbox ≡ c.inbox
  unfolding decode lift
  decode-inbox array body n c =
      ground (arith, λ (h : RpcHeader) (k : Kind). decode_body-inbox h (new_message k) n body c)

  receive_body-shrinks :
      (pool : List ℕ) (body_len head_len : ℕ) (c : Conn)
      → length (receive_body codec new_msg pool body_len head_len c).1.inbox ≤ length c.inbox
  unfolding receive_body read_full
  receive_body-shrinks pool body_len head_len c = grind (arith, read_from-shrinks, decode-inbox)

-- Something was taken off the connection, or the error is one on which both programs give it up.
abbrev pub Advances {ℓ} : {A : Type ℓ} → Conn → Outcome A × Conn → Type ℓ
Advances c r =
    (length r.1.inbox < length c.inbox) ⊎ ((x : Error) × (r.0 ≡ err x) × (is_close x ≡ true))

module _ (codec : Codec) (d : Option ℕ) (new_msg : RpcHeader → Outcome Kind) (wait : Bool)
    (pool : List ℕ) where
  bounded_body-shrinks :
      (limit : Option ℕ) (body_len head_len : ℕ) (c : Conn)
      → length (with_deadline limit (receive_body codec new_msg pool body_len head_len) c).1.inbox
        ≤ length c.inbox
  bounded_body-shrinks none body_len head_len c =
      receive_body-shrinks codec new_msg pool body_len head_len c
  bounded_body-shrinks (some t) body_len head_len c =
      receive_body-shrinks codec new_msg pool body_len head_len (record c { deadline = some t })

  -- Behind the head of a frame nothing is put back.
  frame-Advances :
      (c : Conn) (r : Outcome (List ℕ)) (inbox : List Arrival)
      → read_from 12 [] c.inbox ≡ (r, inbox)
      → (r ≡ err eof) ⊎ (length inbox < length c.inbox)
      → Advances c (receive_frame codec d new_msg wait pool c)
  unfolding receive_frame read_full is_close wrap_error
  frame-Advances c (err x) inbox e (inl ended) =
      inr (wrap_error eof "read header error", ground arith, refl)
  frame-Advances c (err x) inbox e (inr less) = inl (ground arith)
  frame-Advances c (panic p) inbox e (inl ended) = cc
  frame-Advances c (panic p) inbox e (inr less) = inl (ground arith)
  frame-Advances c (ok head) inbox e (inl ended) = cc
  frame-Advances c (ok head) inbox e (inr less) = inl (
      ground (
        arith,
        bounded_body-shrinks (if wait then d else none) (uint32 (drop 4 head))
            (uint32 (drop 8 head)) (record c { inbox = inbox }),
      ))

  receive_frame-Advances : (c : Conn) → Advances c (receive_frame codec d new_msg wait pool c)
  receive_frame-Advances c =
      frame-Advances c (read_from 12 [] c.inbox).0 (read_from 12 [] c.inbox).1 refl
        (read_from-advances 11 c.inbox)

-- Receive takes at least one arrival off the connection, or fails with an error on which both
-- programs give the connection up.
pub receive-Advances :
    (codec : Codec) (d : Option ℕ) (new_msg : RpcHeader → Outcome Kind) (wait : Bool)
    (pool : List ℕ) (c : Conn)
    → Advances c (receive codec d new_msg wait pool c)
unfolding receive
receive-Advances codec d new_msg true pool c =
    receive_frame-Advances codec d new_msg true pool (record c { deadline = none })
receive-Advances codec none new_msg false pool c =
    receive_frame-Advances codec none new_msg false pool (record c { deadline = none })
receive-Advances codec (some t) new_msg false pool c =
    receive_frame-Advances codec (some t) new_msg false pool (record c { deadline = some t })

write-inbox : (bs : List ℕ) (c : Conn) → (write bs c).1.inbox ≡ c.inbox
unfolding write write_one
write-inbox bs c = by_script c.writes
  where
    by_script : (ws : List WriteOutcome) → (write_one bs ws c).1.inbox ≡ c.inbox
    by_script [] = refl
    by_script (wrote ∷ ws) = refl
    by_script (broke n e ∷ ws) = refl

-- Send takes nothing off.
pub send-inbox :
    (codec : Codec) (d : Option ℕ) (h : RpcHeader) (m : Option Message) (c : Conn)
    → (send codec d h m c).1.inbox ≡ c.inbox
unfolding send send_frame lift
send-inbox codec none h m c = grind (arith, write-inbox)
send-inbox codec (some t) h m c = grind (arith, write-inbox)

-- The call fails and nothing was written.
abbrev pub Unsent {ℓ} : {A : Type ℓ} → Conn → Outcome A × Conn → Type ℓ
Unsent c r = ((x : Error) × (r.0 ≡ err x)) × (r.1.outbox ≡ c.outbox)

if-Unsent :
    (b : Bool) (f g : Act (Unit {0})) (c : Conn)
    → Unsent c (f c)
    → Unsent c (g c)
    → Unsent c ((if b then f else g) c)
if-Unsent true f g c h k = h
if-Unsent false f g c h k = k

send_frame-Unsent :
    (codec : Codec) (e : Error) (h : RpcHeader) (m : Message) (c : Conn) (r : Outcome (List ℕ))
    → codec.marshal_header h ≡ r
    → ((p : String) → r ≢ panic p)
    → Unsent c (send_frame (record codec { marshal = λ m'. err e }) h (some m) c)
unfolding send_frame lift marshal_body
send_frame-Unsent codec e h m c (ok head) q calm = rw (q) ((_, refl), refl)
send_frame-Unsent codec e h m c (err x) q calm = rw (q) ((_, refl), refl)
send_frame-Unsent codec e h m c (panic p) q calm = elim (calm p refl) [ ]

-- A Send whose message cannot be marshalled fails and writes nothing.
pub send-Unsent :
    (codec : Codec) (e : Error) (d : Option ℕ) (h : RpcHeader) (m : Message) (c : Conn)
    → ((p : String) → codec.marshal_header h ≢ panic p)
    → Unsent c (send (record codec { marshal = λ m'. err e }) d h (some m) c)
unfolding send
send-Unsent codec e none h m c calm =
    if-Unsent (h.method == "") _ _ c ((_, refl), refl)
      (send_frame-Unsent codec e h m c (codec.marshal_header h) refl calm)
send-Unsent codec e (some t) h m c calm =
    if-Unsent (h.method == "") _ _ c ((_, refl), refl)
      (send_frame-Unsent codec e h m (record c { deadline = some t }) (codec.marshal_header h) refl
        calm)
