-- ===== src/Core/Conn.antt =====
-- A net.Conn as the program sees it: what will arrive, what was written, its deadline, and whether
-- this side has closed it. Failing
-- calls are scripted, so that every behaviour of the network is an input of the model.
use http_portal.Base.{
  ℕ, zero, suc, ◌≡◌, String, Bool, Option, none, some, List, [], ◌∷◌, ◌++◌, map, length, take, ◌∙◌,
  append-nil, append_assoc,
}
use http_portal.Core.Errors.{Error, eof, opaque}

-- What the reading side meets, in order. After the last one every read returns io.EOF.
pub data Arrival : Type 0 where
  byte : ℕ → Arrival
  fault : Error → Arrival

-- What one call of Write does: all is written, or the first n bytes and an error.
pub data WriteOutcome : Type 0 where
  wrote : WriteOutcome
  broke : ℕ → Error → WriteOutcome

pub record Conn : Type 0 where
  pub inbox : List Arrival
  pub outbox : List ℕ
  pub writes : List WriteOutcome
  pub deadline : Option ℕ
  pub closed : Bool

-- A result, the error that the function returns, or a panic.
pub data Outcome {ℓ} (A : Type ℓ) : Type ℓ where
  ok : A → Outcome A
  err : Error → Outcome A
  panic : String → Outcome A

abbrev pub Act : Type 0 → Type 0
Act A = Conn → Outcome A × Conn

abbrev pub after {ℓ κ} :
    {A : Type ℓ} {B : Type κ} → Outcome A → (A → B) → (Error → B) → (String → B) → B
after (ok a) f g h = f a
after (err e) f g h = g e
after (panic s) f g h = h s

infixl 5 ◌>>=◌ ◌>>◌
abbrev pub ◌>>=◌ : {A B : Type 0} → Act A → (A → Act B) → Act B
◌>>=◌ m f c = let r = m c in after r.0 (λ a. f a r.1) (λ e. (err e, r.1)) (λ s. (panic s, r.1))

abbrev pub ◌>>◌ : {B : Type 0} → Act (Unit {0}) → Act B → Act B
m >> k = m >>= λ _. k

abbrev pub return : {A : Type 0} → A → Act A
return a c = (ok a, c)

abbrev pub fail : {A : Type 0} → Error → Act A
fail e c = (err e, c)

abbrev pub crash : {A : Type 0} → String → Act A
crash s c = (panic s, c)

-- if err != nil { return newError(err, …) }
abbrev pub on_error : {A : Type 0} → Act A → (Error → Error) → Act A
on_error m f c =
    let r = m c in after r.0 (λ a. (ok a, r.1)) (λ e. (err (f e), r.1)) (λ s. (panic s, r.1))

abbrev pub set_deadline : Option ℕ → Act (Unit {0})
set_deadline d c = (ok tt, record c { deadline = d })

-- A deferred conn.SetDeadline(time.Time{}).
abbrev pub with_deadline : {A : Type 0} → Option ℕ → Act A → Act A
with_deadline none m c = m c
with_deadline (some d) m c =
    let r = m (record c { deadline = some d }) in (r.0, record r.1 { deadline = none })

-- io.ReadAtLeast(conn, data, len(data)): a stream that ends in the middle is no io.EOF.
unfoldable pub read_from : ℕ → List ℕ → List Arrival → Outcome (List ℕ) × List Arrival
read_from zero got inbox = (ok got, inbox)
read_from (suc n) [] [] = (err eof, [])
read_from (suc n) (g ∷ got) [] = (err (opaque "unexpected EOF"), [])
read_from (suc n) got (byte b ∷ inbox) = read_from n (got ++ b ∷ []) inbox
read_from (suc n) [] (fault eof ∷ inbox) = (err eof, inbox)
read_from (suc n) (g ∷ got) (fault eof ∷ inbox) = (err (opaque "unexpected EOF"), inbox)
read_from (suc n) got (fault e ∷ inbox) = (err e, inbox)

unfoldable pub read_full : ℕ → Act (List ℕ)
unfolding read_from
read_full n c = let r = read_from n [] c.inbox in (r.0, record c { inbox = r.1 })

unfoldable pub write_one : List ℕ → List WriteOutcome → Conn → Outcome (Unit {0}) × Conn
write_one bs [] c = (ok tt, record c { outbox = c.outbox ++ bs })
write_one bs (wrote ∷ ws) c = (ok tt, record c { outbox = c.outbox ++ bs; writes = ws })
write_one bs (broke n e ∷ ws) c = (err e, record c { outbox = c.outbox ++ take n bs; writes = ws })

unfoldable pub write : List ℕ → Act (Unit {0})
unfolding write_one
write bs c = write_one bs c.writes c

read_from-bytes :
    (bs got : List ℕ) (rest : List Arrival)
    → read_from (length bs) got (map byte bs ++ rest) ≡ (ok (got ++ bs), rest)
unfolding read_from
read_from-bytes [] got rest = rw append-nil
read_from-bytes (b ∷ bs) got rest =
    read_from-bytes bs (got ++ b ∷ []) rest ∙ rw (append_assoc got (b ∷ []) bs)

-- A read of as many bytes as have arrived gives them and leaves the rest.
pub read_full-bytes :
    (bs : List ℕ) (rest : List Arrival) (c : Conn)
    → c.inbox ≡ map byte bs ++ rest
    → read_full (length bs) c ≡ (ok bs, record c { inbox = rest })
unfolding read_full
read_full-bytes bs rest c h = rw (h, read_from-bytes bs [] rest)
