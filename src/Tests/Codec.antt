-- ===== src/Tests/Codec.antt =====
-- A codec that meets what the program relies on of the protobuf library: it knows the headers of
-- HTTP requests, logins and their responses without an error, a success, heartbeats, the login of one
-- agent, and responses without header lines that are not cut.
use http_portal.Base.{
  ℕ, String, eqb, ◌≡◌, ◌≢◌, refl, Bool, true, false, List, [], ◌∷◌, arith, string_eq, ◌==◌,
  if◌then◌else◌,
}
use text.Mathlib.TextEquality.{eq_iff}
use http_portal.Core.Errors.{opaque}
use http_portal.Core.Messages.{
  RpcHeader, Message, Kind, HeaderField, http_request, http_response, login_request, heartbeat, ack,
  a_response, a_heartbeat, a_login, an_ack, AckCode, success, not_login, error, kind_of,
  new_message,
}
use http_portal.Core.Conn.{Outcome, ok, err, panic}
use http_portal.Core.Wire.{Codec, IsCodec}
use http_portal.Core.Wire.Calm.{Calm, NoPanic}

abbrev pub tag_of : String → ℕ
tag_of method =
    if method == "http"
    then 1
    else if method == "login"
    then 2
    else if method == "RESP_login"
    then 3
    else if method == "RESP_http"
    then 4
    else 0

abbrev pub method_of : ℕ → String
method_of tag =
    if eqb tag 1
    then "http"
    else if eqb tag 2
    then "login"
    else if eqb tag 3
    then "RESP_login"
    else "RESP_http"

abbrev pub head_bytes : RpcHeader → Outcome (List ℕ)
head_bytes h =
    if eqb (tag_of h.method) 0
    then err (opaque "unknown method")
    else if h.error == ""
    then ok (tag_of h.method ∷ h.seq ∷ [])
    else err (opaque "unknown error")

abbrev pub bytes_head : List ℕ → Outcome RpcHeader
bytes_head (tag ∷ seq ∷ []) = ok (record { method = method_of tag; error = ""; seq = seq })
bytes_head _ = err (opaque "bad header")

abbrev pub response_bytes : ℕ → List HeaderField → List ℕ → Bool → Outcome (List ℕ)
response_bytes status [] body false = ok (status ∷ body)
response_bytes _ _ _ _ = err (opaque "unknown response")

-- An agent called home; its request's number stands in a byte of its own.
abbrev pub login_bytes : String → ℕ → Outcome (List ℕ)
login_bytes name seq = if name == "home" then ok (seq ∷ []) else err (opaque "unknown name")

-- A success is the default, and takes no byte.
abbrev pub ack_bytes : AckCode → Outcome (List ℕ)
ack_bytes success = ok []
ack_bytes _ = err (opaque "unknown code")

abbrev pub message_bytes : Message → Outcome (List ℕ)
message_bytes (http_response r) = response_bytes r.status r.header r.body r.not_finish
message_bytes (heartbeat p) = ok (p.timestamp ∷ [])
message_bytes (login_request r) = login_bytes r.name r.resp_seq
message_bytes (ack a) = ack_bytes a.code
message_bytes _ = err (opaque "unknown message")

abbrev pub bytes_message : Kind → List ℕ → Outcome Message
bytes_message k [] = ok (new_message k)
bytes_message a_response (status ∷ body) =
    ok (http_response (record { status = status; header = []; body = body; not_finish = false }))
bytes_message a_heartbeat (t ∷ []) = ok (heartbeat (record { timestamp = t }))
bytes_message a_login (seq ∷ []) = ok (login_request (record { name = "home"; resp_seq = seq }))
bytes_message _ _ = err (opaque "bad message")

abbrev pub small_codec : Codec
small_codec = record {
  marshal_header = head_bytes;
  header_size = λ h. 2;
  marshal = message_bytes;
  unmarshal_header = bytes_head;
  unmarshal = bytes_message;
}

head_bytes_lem :
    (h : RpcHeader) (bs : List ℕ)
    → head_bytes h ≡ ok bs
    → (bs ≡ tag_of h.method ∷ h.seq ∷ [])
      × (method_of (tag_of h.method) ≡ h.method)
      × (h.error ≡ "")
head_bytes_lem h bs e = ground (
  arith,
  eq_iff h.method "http",
  eq_iff h.method "login",
  eq_iff h.method "RESP_login",
  eq_iff h.method "RESP_http",
  eq_iff h.error "",
)

bytes_head-head_bytes : (h : RpcHeader) (bs : List ℕ) → head_bytes h ≡ ok bs → bytes_head bs ≡ ok h
bytes_head-head_bytes h bs e =
    let (shape, named, fine) = head_bytes_lem h bs e in rw (shape, named, ← fine) refl

response_back :
    (status : ℕ) (header : List HeaderField) (body : List ℕ) (more : Bool) (bs : List ℕ)
    → response_bytes status header body more ≡ ok bs
    → bytes_message a_response bs
      ≡ ok (
          http_response
            (record { status = status; header = header; body = body; not_finish = more }))
response_back status [] body false bs e = grind arith
response_back status [] body true bs e = cc
response_back status (f ∷ fs) body false bs e = cc
response_back status (f ∷ fs) body true bs e = cc

login_back :
    (name : String) (seq : ℕ) (bs : List ℕ)
    → login_bytes name seq ≡ ok bs
    → bytes_message a_login bs ≡ ok (login_request (record { name = name; resp_seq = seq }))
login_back name seq bs e = ground (arith, eq_iff name "home")

ack_back :
    (code : AckCode) (bs : List ℕ)
    → ack_bytes code ≡ ok bs
    → bytes_message an_ack bs ≡ ok (ack (record { code = code }))
ack_back success bs e = grind arith
ack_back not_login bs e = cc
ack_back error bs e = cc

bytes_message-message_bytes :
    (m : Message) (bs : List ℕ) → message_bytes m ≡ ok bs → bytes_message (kind_of m) bs ≡ ok m
bytes_message-message_bytes (http_response r) bs e =
    response_back r.status r.header r.body r.not_finish bs e
bytes_message-message_bytes (heartbeat p) bs e = grind arith
bytes_message-message_bytes (http_request r) bs e = cc
bytes_message-message_bytes (login_request r) bs e = login_back r.name r.resp_seq bs e
bytes_message-message_bytes (ack a) bs e = ack_back a.code bs e

pub small_codec-IsCodec : IsCodec small_codec
small_codec-IsCodec = record {
  unmarshal-marshal_header = bytes_head-head_bytes;
  size_exact = λ h bs e. let r = head_bytes_lem h bs e in grind arith;
  header_nonempty = λ h bs e m. let r = head_bytes_lem h bs e in grind arith;
  unmarshal-marshal = bytes_message-message_bytes;
  unmarshal_empty = λ k. refl;
}

message_bytes-NoPanic : (m : Message) → NoPanic (message_bytes m)
message_bytes-NoPanic (http_response r) p e = response_fine r.header r.not_finish e
  where
    response_fine :
        (header : List HeaderField) (more : Bool)
        → response_bytes r.status header r.body more ≢ panic p
    response_fine [] false q = cc
    response_fine [] true q = cc
    response_fine (f ∷ fs) false q = cc
    response_fine (f ∷ fs) true q = cc
message_bytes-NoPanic (heartbeat x) p e = cc
message_bytes-NoPanic (http_request r) p e = cc
message_bytes-NoPanic (login_request r) p e = ground arith
message_bytes-NoPanic (ack a) p e = ack_fine a.code e
  where
    ack_fine : (code : AckCode) → ack_bytes code ≢ panic p
    ack_fine success q = cc
    ack_fine not_login q = cc
    ack_fine error q = cc

pub small_codec-Calm : Calm small_codec
small_codec-Calm = (λ h p e. ground arith, message_bytes-NoPanic)
