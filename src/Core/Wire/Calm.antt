-- ===== src/Core/Wire/Calm.antt =====
-- core/net.go: a Send does not panic.
use http_portal.Base.{
  ℕ, ◌≡◌, refl, ◌≢◌, String, Bool, true, false, Option, none, some, List, ◌==◌, string_eq,
  if◌then◌else◌, arith,
}
use http_portal.Core.Messages.{RpcHeader, Message}
use http_portal.Core.Conn.{Conn, Outcome, ok, err, panic, Act, write, write_one}
use http_portal.Core.Wire.{Codec, send, send_frame, lift, marshal_body}

abbrev pub NoPanic {ℓ} : {A : Type ℓ} → Outcome A → Type ℓ
NoPanic r = (p : String) → r ≢ panic p

-- Marshalling does not panic.
abbrev pub Calm : Codec → Type 0
Calm codec =
    ((h : RpcHeader) → NoPanic (codec.marshal_header h))
    × ((m : Message) → NoPanic (codec.marshal m))

abbrev NoPanics : {A : Type 0} → Act A → Type 0
NoPanics m = (c : Conn) → NoPanic (m c).0

send_frame-NoPanic :
    (codec : Codec) (h : RpcHeader) (m : Message) (c : Conn) (head body : Outcome (List ℕ))
    → codec.marshal_header h ≡ head
    → codec.marshal m ≡ body
    → NoPanic head
    → NoPanic body
    → NoPanic (send_frame codec h (some m) c).0
unfolding send_frame lift marshal_body write write_one
send_frame-NoPanic codec h m c (ok head) (ok body) q q' calm calm' p =
    rw (q, q') (λ e. ground arith)
send_frame-NoPanic codec h m c (ok head) (err x) q q' calm calm' p = rw (q, q') (λ e. cc)
send_frame-NoPanic codec h m c (ok head) (panic s) q q' calm calm' p = elim (calm' s refl) [ ]
send_frame-NoPanic codec h m c (err x) body q q' calm calm' p = rw (q) (λ e. cc)
send_frame-NoPanic codec h m c (panic s) body q q' calm calm' p = elim (calm s refl) [ ]

if-NoPanic :
    {A : Type 0} (b : Bool) (x y : Act A) → NoPanics x → NoPanics y → NoPanics (if b then x else y)
if-NoPanic true x y h k = h
if-NoPanic false x y h k = k

-- Where marshalling does not panic, a Send of a message does not.
pub send-NoPanic :
    (codec : Codec) (d : Option ℕ) (h : RpcHeader) (m : Message) (c : Conn)
    → Calm codec
    → NoPanic (send codec d h (some m) c).0
unfolding send
send-NoPanic codec none h m c (calm, calm') =
    let framed = λ (c' : Conn). send_frame-NoPanic codec h m c' _ _ refl refl (calm h) (calm' m) in
    if-NoPanic (h.method == "") _ _ (λ c'. λ p q. cc) (λ c'. framed c') c
send-NoPanic codec (some t) h m c (calm, calm') =
    let framed = λ (c' : Conn). send_frame-NoPanic codec h m c' _ _ refl refl (calm h) (calm' m) in
    if-NoPanic (h.method == "") _ _ (λ c'. λ p q. cc)
      (λ c'. framed (record c' { deadline = some t })) c
