-- ===== src/Core/Wire.antt =====
-- core/net.go: Send and Receive, the framing of messages on a connection.
-- The protobuf library is a parameter, `Codec`. Its buffers come from a sync.Pool: `pool` is the
-- array behind the buffer that Get returned, whose old content is still there.
pub mod Bytes
pub mod RoundTrip
pub mod Faults
pub mod Oversized
pub mod Progress
pub mod Calm
pub mod Stream
pub mod Senders
use http_portal.Base.{
  ℕ, ◌+◌, ◌*◌, ◌≡◌, refl, String, Bool, true, false, not, Option, none, some, List, [], ◌∷◌, ◌++◌,
  length, take, drop, replicate, ltb, eqb, ◌==◌, string_eq, if◌then◌else◌, ◌<◌,
}
use http_portal.Core.Errors.{Error, opaque, net_root, wrap_error}
use http_portal.Core.Messages.{RpcHeader, Message, Kind, new_message, kind_of}
use http_portal.Core.Conn.{
  Conn, Outcome, ok, err, panic, Act, ◌>>=◌, ◌>>◌, return, fail, crash, on_error, set_deadline,
  with_deadline, read_full, write,
}
use Bytes.{put_uint32, uint32}

abbrev pub rpc_begin_flag : ℕ
rpc_begin_flag = 0xFFF62556

abbrev pub max_receive_size : ℕ
max_receive_size = 1024 * 1024 * 50

-- What the program uses of github.com/golang/protobuf. Marshal and Unmarshal may fail; Unmarshal is
-- given the type of message that it fills in.
pub record Codec : Type 0 where
  pub marshal_header : RpcHeader → Outcome (List ℕ)
  pub header_size : RpcHeader → ℕ
  pub marshal : Message → Outcome (List ℕ)
  pub unmarshal_header : List ℕ → Outcome RpcHeader
  pub unmarshal : Kind → List ℕ → Outcome Message

-- Documented behaviour: Unmarshal reads what Marshal wrote, XXX_Size is the length of that, a field
-- at its default takes no byte and any other takes some, so that the empty message of its type is
-- read from no bytes.
pub record IsCodec (codec : Codec) : Type 0 where
  pub unmarshal-marshal_header :
      (h : RpcHeader) (bs : List ℕ)
      → codec.marshal_header h ≡ ok bs
      → codec.unmarshal_header bs ≡ ok h
  pub size_exact :
      (h : RpcHeader) (bs : List ℕ)
      → codec.marshal_header h ≡ ok bs
      → codec.header_size h ≡ length bs
  pub header_nonempty :
      (h : RpcHeader) (bs : List ℕ)
      → codec.marshal_header h ≡ ok bs
      → (h.method == "") ≡ false
      → 0 < length bs
  pub unmarshal-marshal :
      (m : Message) (bs : List ℕ) → codec.marshal m ≡ ok bs → codec.unmarshal (kind_of m) bs ≡ ok m
  pub unmarshal_empty : (k : Kind) → codec.unmarshal k [] ≡ ok (new_message k)

lift : {A : Type 0} → Outcome A → Act A
lift r c = (r, c)

module _ (codec : Codec) where
  -- buf.Marshal(msg), skipped for a nil msg.
  unfoldable pub marshal_body : Option Message → Outcome (List ℕ)
  marshal_body none = ok []
  marshal_body (some m) = codec.marshal m

  -- The bytes that Send writes for a header and a body that have been marshalled.
  abbrev pub frame_head : RpcHeader → List ℕ → List ℕ
  frame_head header data_bytes =
      put_uint32 rpc_begin_flag
      ++ (put_uint32 (length data_bytes) ++ put_uint32 (codec.header_size header))

  send_frame : RpcHeader → Option Message → Act (Unit {0})
  unfolding lift marshal_body
  send_frame header msg = do
    head ← on_error (lift (codec.marshal_header header)) (λ e. wrap_error e "marshal header error")
    body ← on_error (lift (marshal_body msg)) (λ e. wrap_error e "marshal msg error")
    on_error (write (frame_head header (head ++ body))) (λ e. wrap_error e "write len error")
    on_error (write (head ++ body)) (λ e. wrap_error e "write error")

  -- Send, where no other Send goes on with the connection meanwhile; Senders has many. `deadline` is
  -- that of its context.
  unfoldable pub send : Option ℕ → RpcHeader → Option Message → Act (Unit {0})
  unfolding send_frame
  send deadline header msg =
      if header.method == ""
      then fail (opaque "no method set")
      else with_deadline deadline (send_frame header msg)

  -- The array behind `data`, once it has room for the body.
  abbrev grown : ℕ → List ℕ → List ℕ
  grown body_len pool = if ltb (length pool) body_len then replicate body_len 0 else pool

  -- data = data[headerLen:], and the message if anything is left.
  decode_body : RpcHeader → Message → ℕ → List ℕ → Act (RpcHeader × Message)
  unfolding lift
  decode_body header msg header_len body =
      if ltb (length body) header_len
      then crash "slice bounds out of range"
      else if eqb (length (drop header_len body)) 0
      then return (header, msg)
      else do
        full ←
            on_error (lift (codec.unmarshal (kind_of msg) (drop header_len body)))
              (λ e. wrap_error e "unmarshal msg error")
        return (header, full)

  -- data[:headerLen] may reach past the body, into what the array held before.
  decode : (RpcHeader → Outcome Kind) → List ℕ → List ℕ → ℕ → Act (RpcHeader × Message)
  unfolding lift decode_body
  decode new_msg array body header_len =
      if ltb (length array) header_len then crash "slice bounds out of range" else do
        header ←
            on_error (lift (codec.unmarshal_header (take header_len array)))
              (λ e. wrap_error e "unmarshal header error")
        kind ← lift (new_msg header)
        decode_body header (new_message kind) header_len body

  receive_body : (RpcHeader → Outcome Kind) → List ℕ → ℕ → ℕ → Act (RpcHeader × Message)
  unfolding decode
  receive_body new_msg pool body_len header_len = do
    body ← on_error (read_full body_len) (λ e. wrap_error e "read body error")
    decode new_msg (body ++ drop body_len (grown body_len pool)) body header_len

  receive_frame : Option ℕ → (RpcHeader → Outcome Kind) → Bool → List ℕ → Act (RpcHeader × Message)
  unfolding receive_body
  receive_frame deadline new_msg wait pool = do
    head ← on_error (read_full 12) (λ e. wrap_error e "read header error")
    let body_len = uint32 (drop 4 head)
    let header_len = uint32 (drop 8 head)
    if not (eqb (uint32 head) rpc_begin_flag)
        then fail (net_root "begin flag wrong" false)
        else if ltb max_receive_size body_len
        then crash "body length too big"
        else if eqb header_len 0
        then fail (opaque "pkg has no header")
        else with_deadline (if wait then deadline else none)
            (receive_body new_msg pool body_len header_len)

  -- Receive: without `wait` the deadline is for the whole message, with it for the body alone.
  unfoldable pub receive :
      Option ℕ → (RpcHeader → Outcome Kind) → Bool → List ℕ → Act (RpcHeader × Message)
  unfolding receive_frame
  receive deadline new_msg wait pool = elim (if wait then none else deadline) [
    | some d ↦ with_deadline (some d) (receive_frame deadline new_msg wait pool)
    | none ↦ set_deadline none >> receive_frame deadline new_msg wait pool
  ]
