-- ===== src/Core/Wire/Oversized.antt =====
-- core/net.go: Send and Receive bound a frame differently.
use http_portal.Base.{
  ◌^◌, ℕ, ◌<◌, ◌≡◌, refl, Bool, false, Option, List, [], ◌++◌, map, length, ◌==◌, string_eq,
}
use http_portal.Core.Messages.{RpcHeader, Message, Kind}
use http_portal.Core.Conn.{Conn, Outcome, ok, panic, byte, Arrival}
use http_portal.Core.Wire.Bytes.{uint32-put_uint32}
use http_portal.Core.Wire.{
  Codec, IsCodec, frame_head, max_receive_size, receive, send, marshal_body,
}
use http_portal.Core.Wire.RoundTrip.{send_lem}
use http_portal.Core.Wire.Faults.{receive_rejects}

-- Send does not bound what it writes. With a codec that obeys its laws, a header with a method, and
-- where both marshal and no Write fails, a frame's body above MaxReceiveSize, below 2 ^ 32 bytes, is
-- written with success, and the Receive that meets it panics.
pub receive-send_oversized :
    (codec : Codec) (law : IsCodec codec) (d e : Option ℕ) (wait : Bool)
    (new_msg : RpcHeader → Outcome Kind) (header : RpcHeader) (msg : Option Message)
    (head body pool : List ℕ) (from to : Conn) (rest : List Arrival)
    → (header.method == "") ≡ false
    → codec.marshal_header header ≡ ok head
    → marshal_body codec msg ≡ ok body
    → max_receive_size < length (head ++ body)
    → length (head ++ body) < 2 ^ 32
    → from.writes ≡ []
    → let sent = send codec d header msg from in
      (bs : List ℕ) × (sent.0 ≡ ok tt)
      × (sent.1.outbox ≡ from.outbox ++ bs)
      × ((receive codec e new_msg wait pool (record to { inbox = map byte bs ++ rest })).0
          ≡ panic "body length too big")
receive-send_oversized codec law d e wait new_msg header msg head body pool from to rest named mh mb
      big fits w =
    let out = send_lem codec law d header msg head body from named mh mb w in
    let got =
      (receive_rejects codec e new_msg wait pool (frame_head codec header (head ++ body))
          (map byte (head ++ body) ++ rest)
          (record to {
            inbox = map byte (frame_head codec header (head ++ body) ++ (head ++ body)) ++ rest;
          })
          refl refl).1
        refl (rw (uint32-put_uint32 (length (head ++ body)) [] fits) big) in
    (frame_head codec header (head ++ body) ++ (head ++ body), out.0, out.1, got)
