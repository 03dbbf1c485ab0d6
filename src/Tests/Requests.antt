-- ===== src/Tests/Requests.antt =====
-- The codec of the tests, which also knows one request of the server.
use http_portal.Base.{
  ℕ, ◌≡◌, refl, ap, sym, Bool, true, false, ◌&&◌, List, [], ◌∷◌, Text, ◌==◌, text_eq, string_eq,
  arith, if◌then◌else◌, Bool-cases, inl, inr,
}
use http_portal.Core.Errors.{opaque}
use http_portal.Core.Messages.{
  HeaderField, HttpRequest, Message, Kind, http_request, http_response, login_request, heartbeat,
  ack, a_request, a_response, a_login, a_heartbeat, an_ack, kind_of, new_message,
}
use http_portal.Core.Conn.{Outcome, ok, err}
use http_portal.Core.Wire.{Codec, IsCodec}
use http_portal.Tests.Codec.{small_codec, small_codec-IsCodec, message_bytes, bytes_message}

abbrev same_values : List Text → List Text → Bool
same_values [] [] = true
same_values (v ∷ vs) (w ∷ ws) = (v == w) && same_values vs ws
same_values _ _ = false

abbrev same_fields : List HeaderField → List HeaderField → Bool
same_fields [] [] = true
same_fields (f ∷ fs) (g ∷ gs) =
    (f.key == g.key) && (same_values f.value g.value && same_fields fs gs)
same_fields _ _ = false

abbrev same_request : HttpRequest → HttpRequest → Bool
same_request q r =
    (q.method == r.method)
    && ((q.url == r.url)
        && ((q.req_proto == r.req_proto)
            && (same_fields q.header r.header
                && ((q.body == r.body)
                    && ((q.host == r.host) && (q.remote_addr == r.remote_addr))))))

both_true : (a b : Bool) → (a && b) ≡ true → (a ≡ true) × (b ≡ true)
both_true true b e = (refl, e)
both_true false b e = cc

same_values_sound : (vs ws : List Text) → same_values vs ws ≡ true → vs ≡ ws
same_values_sound [] [] e = refl
same_values_sound [] (w ∷ ws) e = cc
same_values_sound (v ∷ vs) [] e = cc
same_values_sound (v ∷ vs) (w ∷ ws) e =
    let (one, more) = both_true (v == w) _ e in
    let first : v ≡ w = (text_eq.equal_iff v w).0 one in
    let rest = same_values_sound vs ws more in cc

same_fields_sound : (fs gs : List HeaderField) → same_fields fs gs ≡ true → fs ≡ gs
same_fields_sound [] [] e = refl
same_fields_sound [] (g ∷ gs) e = cc
same_fields_sound (f ∷ fs) [] e = cc
same_fields_sound (f ∷ fs) (g ∷ gs) e =
    let (one, more) = both_true (f.key == g.key) _ e in
    let (two, last) = both_true (same_values f.value g.value) _ more in
    let key : f.key ≡ g.key = (string_eq.equal_iff f.key g.key).0 one in
    let value = same_values_sound f.value g.value two in
    let rest = same_fields_sound fs gs last in cc

same_request_sound : (q r : HttpRequest) → same_request q r ≡ true → q ≡ r
same_request_sound q r e =
    let (m, e1) = both_true (q.method == r.method) _ e in
    let (u, e2) = both_true (q.url == r.url) _ e1 in
    let (p, e3) = both_true (q.req_proto == r.req_proto) _ e2 in
    let (h, e4) = both_true (same_fields q.header r.header) _ e3 in
    let (b, e5) = both_true (q.body == r.body) _ e4 in
    let (o, a) = both_true (q.host == r.host) _ e5 in
    let method : q.method ≡ r.method = (string_eq.equal_iff q.method r.method).0 m in
    let url : q.url ≡ r.url = (text_eq.equal_iff q.url r.url).0 u in
    let proto : q.req_proto ≡ r.req_proto = (string_eq.equal_iff q.req_proto r.req_proto).0 p in
    let header = same_fields_sound q.header r.header h in
    let body : q.body ≡ r.body = (text_eq.equal_iff q.body r.body).0 b in
    let host : q.host ≡ r.host = (text_eq.equal_iff q.host r.host).0 o in
    let addr : q.remote_addr ≡ r.remote_addr =
      (string_eq.equal_iff q.remote_addr r.remote_addr).0 a in
    cc

module _ (known : HttpRequest) where
  abbrev pub request_bytes : Message → Outcome (List ℕ)
  request_bytes (http_request q) =
      if same_request q known then ok (9 ∷ []) else err (opaque "unknown request")
  request_bytes m = message_bytes m

  abbrev pub bytes_request : Kind → List ℕ → Outcome Message
  bytes_request a_request (tag ∷ []) = ok (http_request known)
  bytes_request k bs = bytes_message k bs

  abbrev pub request_codec : Codec
  request_codec = record small_codec { marshal = request_bytes; unmarshal = bytes_request }

  request_back :
      (m : Message) (bs : List ℕ) → request_bytes m ≡ ok bs → bytes_request (kind_of m) bs ≡ ok m
  request_back (http_request q) bs e = elim (Bool-cases (same_request q known)) [
    | inl same ↦
        let eq = same_request_sound q known same in
        let shape : bs ≡ 9 ∷ [] = ground arith in rw shape (ap (λ x. ok (http_request x)) (sym eq))
    | inr other ↦ ground arith
  ]
  request_back (http_response q) bs e = small_codec-IsCodec.unmarshal-marshal (http_response q) bs e
  request_back (login_request q) bs e = small_codec-IsCodec.unmarshal-marshal (login_request q) bs e
  request_back (heartbeat q) bs e = small_codec-IsCodec.unmarshal-marshal (heartbeat q) bs e
  request_back (ack q) bs e = small_codec-IsCodec.unmarshal-marshal (ack q) bs e

  empty_request : (k : Kind) → bytes_request k [] ≡ ok (new_message k)
  empty_request a_request = refl
  empty_request a_response = refl
  empty_request a_login = refl
  empty_request a_heartbeat = refl
  empty_request an_ack = refl

  pub request_codec-IsCodec : IsCodec request_codec
  request_codec-IsCodec = record {
    unmarshal-marshal_header = small_codec-IsCodec.unmarshal-marshal_header;
    size_exact = small_codec-IsCodec.size_exact;
    header_nonempty = small_codec-IsCodec.header_nonempty;
    unmarshal-marshal = request_back;
    unmarshal_empty = empty_request;
  }
