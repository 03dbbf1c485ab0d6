-- ===== src/Core/Wire/Stream.antt =====
-- core/net.go: many messages on one connection.
use http_portal.Base.{
  ℕ, zero, suc, ◌≡◌, refl, ◌∙◌, sym, map-append, append_assoc, append-nil, true, false, Option,
  none, some, List, [], ◌∷◌, ◌++◌, map, string_eq, ◌==◌, arith, length, ◌≤◌,
}
use http_portal.Core.Messages.{RpcHeader, Message, Kind, kind_of}
use http_portal.Core.Conn.{
  Conn, Outcome, ok, byte, Arrival, Act, ◌>>=◌, ◌>>◌, return, write, write_one,
}
use http_portal.Core.Wire.{
  Codec, IsCodec, max_receive_size, frame_head, marshal_body, send, send_frame, receive,
}
use http_portal.Core.Wire.RoundTrip.{send_lem, receive_lem, unmarshal_body}

-- The message marshals, into a frame's body that Receive takes.
abbrev pub Carries : Codec → RpcHeader → Message → Type 0
Carries codec h m =
    (head : List ℕ) × (body : List ℕ) × (codec.marshal_header h ≡ ok head)
    × (codec.marshal m ≡ ok body)
    × (length (head ++ body) ≤ max_receive_size)

-- A Receive with this newMsg that reads these bytes has the message, and leaves what follows them.
abbrev pub Reads : Codec → (RpcHeader → Outcome Kind) → RpcHeader → Message → List ℕ → Type 0
Reads codec new_msg h m bs =
    (pool : List ℕ) (to : Conn) (rest : List Arrival)
    → to.inbox ≡ map byte bs ++ rest
    → receive codec none new_msg true pool to
      ≡ (ok (h, m), record to { inbox = rest; deadline = none })

-- A Send on this connection wrote these bytes, of which a Receive with this newMsg on another makes
-- the message.
abbrev pub Travels :
    Codec → Option ℕ → (RpcHeader → Outcome Kind) → RpcHeader → Message → Conn → List ℕ → Type 0
Travels codec d new_msg h m from bs =
    let sent = send codec d h (some m) from in
    (sent.0 ≡ ok tt) × (sent.1.outbox ≡ from.outbox ++ bs) × Reads codec new_msg h m bs

module _ (codec : Codec) (law : IsCodec codec) where
  pub carried :
      (d : Option ℕ) (new_msg : RpcHeader → Outcome Kind) (h : RpcHeader) (m : Message)
      (from : Conn)
      → Carries codec h m
      → (h.method == "") ≡ false
      → new_msg h ≡ ok (kind_of m)
      → from.writes ≡ []
      → (bs : List ℕ) × Travels codec d new_msg h m from bs
  unfolding marshal_body
  carried d new_msg h m from (head, body, marshals, marshals', small) named chosen w =
      let both = head ++ body in
      let (sent, wrote) =
        send_lem codec law d h (some m) head body from named marshals marshals' w in
      (
        frame_head codec h both ++ both,
        (
          sent,
          wrote,
          λ (pool : List ℕ) (to : Conn) (rest : List Arrival)
                (arrived : to.inbox ≡ map byte (frame_head codec h both ++ both) ++ rest).
              receive_lem codec law none new_msg true h (some m) (kind_of m) head body pool rest to
                (law.unmarshal-marshal_header h head marshals) chosen
                (unmarshal_body codec law (some m) (kind_of m) body marshals' refl)
                (law.size_exact h head marshals) (law.header_nonempty h head marshals named) small
                (arrived ∙ rw (map-append, append_assoc) refl),
        ),
      )

-- A message, and the deadline of the context of its Send.
pub record Sending : Type 0 where
  pub deadline : Option ℕ
  pub header : RpcHeader
  pub message : Message

-- One Send after the other, up to the first error.
unfoldable pub send_all : Codec → List Sending → Act (Unit {0})
send_all codec [] = return tt
send_all codec (x ∷ xs) = send codec x.deadline x.header (some x.message) >> send_all codec xs

-- So many Receives, up to the first error; the pool gives each its buffer.
unfoldable pub receive_all :
    Codec → (RpcHeader → Outcome Kind) → (ℕ → List ℕ) → ℕ → Act (List (RpcHeader × Message))
receive_all codec new_msg pools zero = return []
receive_all codec new_msg pools (suc n) = do
  m ← receive codec none new_msg true (pools n)
  ms ← receive_all codec new_msg pools n
  return (m ∷ ms)

-- Each message marshals, has a method, and has the type that newMsg chooses.
abbrev pub AllCarry : Codec → (RpcHeader → Outcome Kind) → List Sending → Type 0
AllCarry codec new_msg [] = Unit {0}
AllCarry codec new_msg (x ∷ xs) =
    Carries codec x.header x.message
    × ((x.header.method == "") ≡ false)
    × (new_msg x.header ≡ ok (kind_of x.message))
    × AllCarry codec new_msg xs

abbrev pub messages : List Sending → List (RpcHeader × Message)
messages = map (λ x. (x.header, x.message))

-- These bytes are frames of these messages.
pub data Frames (codec : Codec) (new_msg : RpcHeader → Outcome Kind)
    : List Sending → List ℕ → Type 0 where
  no_frame : Frames codec new_msg [] []
  frame :
      {x : Sending} {xs : List Sending} (b bs : List ℕ)
      → Reads codec new_msg x.header x.message b
      → Frames codec new_msg xs bs
      → Frames codec new_msg (x ∷ xs) (b ++ bs)

module _ (codec : Codec) (law : IsCodec codec) where
  -- A Send that succeeds on a connection whose Writes succeed leaves it so.
  send-writes :
      (d : Option ℕ) (h : RpcHeader) (m : Message) (c : Conn)
      → Carries codec h m
      → (h.method == "") ≡ false
      → c.writes ≡ []
      → (send codec d h (some m) c).1.writes ≡ []
  unfolding send send_frame marshal_body write write_one
  send-writes none h m c (head, body, marshals, marshals', small) named w = ground arith
  send-writes (some t) h m c (head, body, marshals, marshals', small) named w = ground arith

  -- A Send takes nothing off the connection.
  pub send-inbox :
      (d : Option ℕ) (h : RpcHeader) (m : Message) (c : Conn)
      → Carries codec h m
      → (h.method == "") ≡ false
      → c.writes ≡ []
      → (send codec d h (some m) c).1.inbox ≡ c.inbox
  unfolding send send_frame marshal_body write write_one
  send-inbox none h m c (head, body, marshals, marshals', small) named w = ground arith
  send-inbox (some t) h m c (head, body, marshals, marshals', small) named w = ground arith

  pub send_all-Frames :
      (new_msg : RpcHeader → Outcome Kind) (xs : List Sending) (from : Conn)
      → AllCarry codec new_msg xs
      → from.writes ≡ []
      → (bs : List ℕ) × ((send_all codec xs from).0 ≡ ok tt)
        × ((send_all codec xs from).1.outbox ≡ from.outbox ++ bs)
        × Frames codec new_msg xs bs
  unfolding send_all
  send_all-Frames new_msg [] from all w = ([], refl, sym (append-nil from.outbox), no_frame)
  send_all-Frames new_msg (x ∷ xs) from (carries, named, chosen, all) w =
      let (b, (sent, wrote, reads)) =
        carried codec law x.deadline new_msg x.header x.message from carries named chosen w in
      let from' = (send codec x.deadline x.header (some x.message) from).1 in
      let (bs, done, wrote', frames) =
        send_all-Frames new_msg xs from' all
          (send-writes x.deadline x.header x.message from carries named w) in
      (
        b ++ bs,
        rw sent done,
        rw (sent) (wrote' ∙ rw (wrote, append_assoc) refl),
        frame b bs reads frames,
      )

  receive_all-Frames :
      (new_msg : RpcHeader → Outcome Kind) (xs : List Sending) (bs : List ℕ) (to : Conn)
      (pools : ℕ → List ℕ) (rest : List Arrival)
      → Frames codec new_msg xs bs
      → to.inbox ≡ map byte bs ++ rest
      → to.deadline ≡ none
      → receive_all codec new_msg pools (length xs) to
        ≡ (ok (messages xs), record to { inbox = rest; deadline = none })
  unfolding receive_all
  receive_all-Frames new_msg [] bs to pools rest no_frame arrived free = cc
  receive_all-Frames new_msg (x ∷ xs) bs to pools rest (frame b bs' reads frames) arrived free =
      let got =
        reads (pools (length xs)) to (map byte bs' ++ rest)
          (arrived ∙ rw (map-append, append_assoc) refl) in
      rw (got) (
        rw
          (receive_all-Frames new_msg xs bs'
            (record to { inbox = map byte bs' ++ rest; deadline = none }) pools rest frames refl
            refl)
          refl)

  -- What was written by Sends one after the other is received, message for message and in order, by
  -- as many Receives on a connection that delivers these bytes and then others; no bytes are lost and
  -- none of the others is read. The codec obeys its laws, no Write fails, and each message marshals,
  -- into a frame that Receive takes, has a method and has the type that newMsg chooses.
  pub receive_all-send_all :
      (new_msg : RpcHeader → Outcome Kind) (xs : List Sending) (from to : Conn) (pools : ℕ → List ℕ)
      (rest : List Arrival)
      → AllCarry codec new_msg xs
      → from.writes ≡ []
      → to.deadline ≡ none
      → (bs : List ℕ) × ((send_all codec xs from).0 ≡ ok tt)
        × ((send_all codec xs from).1.outbox ≡ from.outbox ++ bs)
        × (receive_all codec new_msg pools (length xs) (record to { inbox = map byte bs ++ rest })
            ≡ (ok (messages xs), record to { inbox = rest; deadline = none }))
  receive_all-send_all new_msg xs from to pools rest all w free =
      let (bs, sent, wrote, frames) = send_all-Frames new_msg xs from all w in
      (
        bs,
        sent,
        wrote,
        receive_all-Frames new_msg xs bs (record to { inbox = map byte bs ++ rest }) pools rest
            frames refl free,
      )
