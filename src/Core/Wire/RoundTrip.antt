-- ===== src/Core/Wire/RoundTrip.antt =====
-- core/net.go: what Send writes, Receive reads.
use http_portal.Base.{
  subst, ℕ, ◌≤◌, ◌<◌, ◌≡◌, refl, Bool, true, false, Option, none, some, List, [], ◌∷◌, ◌++◌, map,
  length, ◌==◌, string_eq, if◌then◌else◌, arith, length-append, take-append_length,
  drop-append_length, append_assoc,
}
use http_portal.Core.Messages.{RpcHeader, Message, Kind, new_message, kind_of}
use http_portal.Core.Conn.{Conn, Outcome, ok, byte, Arrival, read_full-bytes, write, with_deadline}
use http_portal.Core.Wire.Bytes.{put_uint32, uint32-put_uint32}
use http_portal.Core.Wire.{
  Codec, IsCodec, rpc_begin_flag, max_receive_size, frame_head, send_frame, send, marshal_body,
  decode_body, decode, receive_body, receive_frame, receive,
}

-- The message that a Receive returns for what was sent: a nil message arrives as the empty message
-- of the type that the receiver chose.
abbrev pub arrives_as : Option Message → Kind → Message
arrives_as none k = new_message k
arrives_as (some m) k = m

abbrev pub Fits : Option Message → Kind → Type 0
Fits none k = Unit {0}
Fits (some m) k = kind_of m ≡ k

module _ (codec : Codec) (law : IsCodec codec) where
  -- A frame on the wire.
  abbrev frame : List ℕ → List ℕ → List ℕ
  frame head body =
      put_uint32 rpc_begin_flag
      ++ (put_uint32 (length (head ++ body)) ++ (put_uint32 (length head) ++ (head ++ body)))

  -- The deadline that is left when a call with a deadline of its own, or with none, has returned.
  abbrev left_deadline : Option ℕ → Option ℕ → Option ℕ
  left_deadline none old = old
  left_deadline (some d) old = none

  kind_new_message : (k : Kind) → kind_of (new_message k) ≡ k
  kind_new_message Kind.a_request = refl
  kind_new_message _ = refl

  pub unmarshal_body :
      (msg : Option Message) (k : Kind) (body : List ℕ)
      → marshal_body codec msg ≡ ok body
      → Fits msg k
      → codec.unmarshal k body ≡ ok (arrives_as msg k)
  unfolding marshal_body
  unmarshal_body none k body e f =
      subst (λ b. codec.unmarshal k b ≡ ok (new_message k)) (ground arith) (law.unmarshal_empty k)
  unmarshal_body (some m) k body e f =
      subst (λ j. codec.unmarshal j body ≡ ok m) f (law.unmarshal-marshal m body e)

  decode_body_lem :
      (header : RpcHeader) (msg : Option Message) (k : Kind) (head body : List ℕ) (c : Conn)
      → codec.unmarshal k body ≡ ok (arrives_as msg k)
      → decode_body codec header (new_message k) (length head) (head ++ body) c
        ≡ (ok (header, arrives_as msg k), c)
  unfolding decode_body
  decode_body_lem header msg k head [] c u =
      ground (arith, length-append head [], drop-append_length head [], law.unmarshal_empty k)
  decode_body_lem header msg k head (b ∷ body) c u =
      ground (
        arith,
        length-append head (b ∷ body),
        drop-append_length head (b ∷ body),
        kind_new_message k,
      )

  -- The header is read from the array, whatever follows the body there.
  decode_lem :
      (new_msg : RpcHeader → Outcome Kind) (header : RpcHeader) (msg : Option Message) (k : Kind)
      (head body tail : List ℕ) (c : Conn)
      → codec.unmarshal_header head ≡ ok header
      → new_msg header ≡ ok k
      → codec.unmarshal k body ≡ ok (arrives_as msg k)
      → decode codec new_msg ((head ++ body) ++ tail) (head ++ body) (length head) c
        ≡ (ok (header, arrives_as msg k), c)
  unfolding decode
  decode_lem new_msg header msg k head body tail c uh nm ub = ground (
    arith,
    append_assoc head body tail,
    length-append head (body ++ tail),
    take-append_length head (body ++ tail),
    decode_body_lem header msg k head body c ub,
  )

  receive_body_lem :
      (new_msg : RpcHeader → Outcome Kind) (header : RpcHeader) (msg : Option Message) (k : Kind)
      (head body pool : List ℕ) (rest : List Arrival) (c : Conn)
      → codec.unmarshal_header head ≡ ok header
      → new_msg header ≡ ok k
      → codec.unmarshal k body ≡ ok (arrives_as msg k)
      → c.inbox ≡ map byte (head ++ body) ++ rest
      → receive_body codec new_msg pool (length (head ++ body)) (length head) c
        ≡ (ok (header, arrives_as msg k), record c { inbox = rest })
  unfolding receive_body
  receive_body_lem new_msg header msg k head body pool rest c uh nm ub inbox =
      rw (read_full-bytes (head ++ body) rest c inbox)
        (decode_lem new_msg header msg k head body _ (record c { inbox = rest }) uh nm ub)

  timed_body_lem :
      (d : Option ℕ) (new_msg : RpcHeader → Outcome Kind) (header : RpcHeader)
      (msg : Option Message) (k : Kind) (head body pool : List ℕ) (rest : List Arrival) (c : Conn)
      → codec.unmarshal_header head ≡ ok header
      → new_msg header ≡ ok k
      → codec.unmarshal k body ≡ ok (arrives_as msg k)
      → c.inbox ≡ map byte (head ++ body) ++ rest
      → with_deadline d (receive_body codec new_msg pool (length (head ++ body)) (length head)) c
        ≡ (
          ok (header, arrives_as msg k),
          record c { inbox = rest; deadline = left_deadline d c.deadline },
        )
  timed_body_lem none new_msg header msg k head body pool rest c uh nm ub inbox =
      ground (arith, receive_body_lem new_msg header msg k head body pool rest c uh nm ub inbox)
  timed_body_lem (some d) new_msg header msg k head body pool rest c uh nm ub inbox = ground (
    arith,
    receive_body_lem new_msg header msg k head body pool rest (record c { deadline = some d }) uh nm
        ub inbox,
  )

  receive_frame_lem :
      (d : Option ℕ) (new_msg : RpcHeader → Outcome Kind) (wait : Bool) (header : RpcHeader)
      (msg : Option Message) (k : Kind) (head body pool : List ℕ) (rest : List Arrival) (c : Conn)
      → codec.unmarshal_header head ≡ ok header
      → new_msg header ≡ ok k
      → codec.unmarshal k body ≡ ok (arrives_as msg k)
      → codec.header_size header ≡ length head
      → 0 < length head
      → length (head ++ body) ≤ max_receive_size
      → c.inbox
        ≡ map byte (frame_head codec header (head ++ body)) ++ (map byte (head ++ body) ++ rest)
      → receive_frame codec d new_msg wait pool c ≡ (
        ok (header, arrives_as msg k),
        record c { inbox = rest; deadline = left_deadline (if wait then d else none) c.deadline },
      )
  unfolding receive_frame
  receive_frame_lem d new_msg wait header msg k head body pool rest c uh nm ub size pos small
        inbox =
      rw (read_full-bytes (frame_head codec header (head ++ body)) _ c inbox, size)
        (rw
          (
            uint32-put_uint32 (length (head ++ body)) [] (omega arith),
            uint32-put_uint32 (length head) [] (omega (arith, length-append head body)),
          )
          (ground (
            arith,
            timed_body_lem (if wait then d else none) new_msg header msg k head body pool rest
                (record c { inbox = map byte (head ++ body) ++ rest }) uh nm ub refl,
          )))

  pub receive_lem :
      (d : Option ℕ) (new_msg : RpcHeader → Outcome Kind) (wait : Bool) (header : RpcHeader)
      (msg : Option Message) (k : Kind) (head body pool : List ℕ) (rest : List Arrival) (c : Conn)
      → codec.unmarshal_header head ≡ ok header
      → new_msg header ≡ ok k
      → codec.unmarshal k body ≡ ok (arrives_as msg k)
      → codec.header_size header ≡ length head
      → 0 < length head
      → length (head ++ body) ≤ max_receive_size
      → c.inbox
        ≡ map byte (frame_head codec header (head ++ body)) ++ (map byte (head ++ body) ++ rest)
      → receive codec d new_msg wait pool c
        ≡ (ok (header, arrives_as msg k), record c { inbox = rest; deadline = none })
  unfolding receive
  receive_lem none new_msg true header msg k head body pool rest c uh nm ub size pos small inbox =
      ground (
        arith,
        receive_frame_lem none new_msg true header msg k head body pool rest
            (record c { deadline = none }) uh nm ub size pos small inbox,
      )
  receive_lem none new_msg false header msg k head body pool rest c uh nm ub size pos small inbox =
      ground (
        arith,
        receive_frame_lem none new_msg false header msg k head body pool rest
            (record c { deadline = none }) uh nm ub size pos small inbox,
      )
  receive_lem (some d) new_msg true header msg k head body pool rest c uh nm ub size pos small
        inbox =
      ground (
        arith,
        receive_frame_lem (some d) new_msg true header msg k head body pool rest
            (record c { deadline = none }) uh nm ub size pos small inbox,
      )
  receive_lem (some d) new_msg false header msg k head body pool rest c uh nm ub size pos small
        inbox =
      ground (
        arith,
        receive_frame_lem (some d) new_msg false header msg k head body pool rest
            (record c { deadline = some d }) uh nm ub size pos small inbox,
      )

  pub send_lem :
      (d : Option ℕ) (header : RpcHeader) (msg : Option Message) (head body : List ℕ) (c : Conn)
      → (header.method == "") ≡ false
      → codec.marshal_header header ≡ ok head
      → marshal_body codec msg ≡ ok body
      → c.writes ≡ []
      → ((send codec d header msg c).0 ≡ ok tt)
        × ((send codec d header msg c).1.outbox
            ≡ c.outbox ++ (frame_head codec header (head ++ body) ++ (head ++ body)))
  unfolding send send_frame write
  send_lem none header msg head body c named mh mb w =
      ground (arith, append_assoc c.outbox (frame_head codec header (head ++ body)) (head ++ body))
  send_lem (some d) header msg head body c named mh mb w =
      ground (arith, append_assoc c.outbox (frame_head codec header (head ++ body)) (head ++ body))

-- A message that Send wrote on a connection is received whole on a connection that delivers these
-- bytes and then others, under any deadline and whatever buffer the pool handed out: the same
-- header, the same message (a nil message as the empty one of the type that newMsg chose), the
-- bytes after it left to the next Receive and no deadline left behind. The codec obeys its laws, no Write fails, the
-- header has a method, both marshal, newMsg gives the type of the message, and the frame's body has at most MaxReceiveSize
-- bytes.
pub receive-send :
    (codec : Codec) (law : IsCodec codec) (d e : Option ℕ) (wait : Bool)
    (new_msg : RpcHeader → Outcome Kind) (header : RpcHeader) (msg : Option Message) (k : Kind)
    (head body pool : List ℕ) (from to : Conn) (rest : List Arrival)
    → (header.method == "") ≡ false
    → codec.marshal_header header ≡ ok head
    → marshal_body codec msg ≡ ok body
    → new_msg header ≡ ok k
    → Fits msg k
    → length (head ++ body) ≤ max_receive_size
    → from.writes ≡ []
    → let sent = send codec d header msg from in
      (bs : List ℕ) × (sent.0 ≡ ok tt)
      × (sent.1.outbox ≡ from.outbox ++ bs)
      × (receive codec e new_msg wait pool (record to { inbox = map byte bs ++ rest })
          ≡ (ok (header, arrives_as msg k), record to { inbox = rest; deadline = none }))
receive-send codec law d e wait new_msg header msg k head body pool from to rest named mh mb nm fits
      small w =
    let out = send_lem codec law d header msg head body from named mh mb w in
    let got =
      receive_lem codec law e new_msg wait header msg k head body pool rest
        (record to {
          inbox = map byte (frame_head codec header (head ++ body) ++ (head ++ body)) ++ rest;
        })
        (law.unmarshal-marshal_header header head mh) nm
        (unmarshal_body codec law msg k body mb fits) (law.size_exact header head mh)
        (law.header_nonempty header head mh named) small refl in
    (frame_head codec header (head ++ body) ++ (head ++ body), out.0, out.1, got)
