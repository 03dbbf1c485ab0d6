-- ===== src/Tests/Wire.antt =====
-- core/net.go: frames and errors at concrete inputs.
use http_portal.Base.{
  ℕ, ◌+◌, ◌<◌, ◌≤◌, ◌≡◌, ◌≢◌, refl, true, false, none, some, List, [], ◌∷◌, ◌++◌, map, length, drop,
  replicate, length-replicate, arith, string_eq,
}
use http_portal.Core.Errors.{Error, opaque, eof, is_close, wrap_error, is_temporary}
use http_portal.Core.Errors.Retry.{wrap_error_classified}
use http_portal.Core.Messages.{RpcHeader, Message, Kind, http_response, a_response}
use http_portal.Core.Conn.{Conn, Outcome, ok, err, panic, byte, write}
use http_portal.Core.Wire.{send, receive, marshal_body, rpc_begin_flag, max_receive_size}
use http_portal.Core.Wire.Bytes.{put_uint32, uint32}
use http_portal.Core.Wire.RoundTrip.{receive-send}
use http_portal.Core.Wire.Faults.{receive_rejects}
use http_portal.Core.Wire.Oversized.{receive-send_oversized}
use http_portal.Tests.Codec.{small_codec, small_codec-IsCodec}

abbrev no_traffic : Conn
no_traffic = record { inbox = []; outbox = []; writes = []; deadline = none; closed = false }

abbrev http_header : RpcHeader
http_header = record { method = "http"; error = ""; seq = 7 }

abbrev teapot : Message
teapot =
    http_response (record { status = 418; header = []; body = 65 ∷ 66 ∷ []; not_finish = false })

abbrev any_response : RpcHeader → Outcome Kind
any_response h = ok a_response

-- A frame of 5 bytes, of which 2 are the header.
send_run :
    (send small_codec (some 9) http_header (some teapot) no_traffic).1.outbox
    ≡ 255 ∷ 246 ∷ 37 ∷ 86 ∷ 0 ∷ 0 ∷ 0 ∷ 5 ∷ 0 ∷ 0 ∷ 0 ∷ 2 ∷ 1 ∷ 7 ∷ 418 ∷ 65 ∷ 66 ∷ []
unfolding send write
send_run = refl

receive-send_example :
    let sent = send small_codec (some 9) http_header (some teapot) no_traffic in
    (bs : List ℕ) × (sent.0 ≡ ok tt)
    × (sent.1.outbox ≡ [] ++ bs)
    × (receive small_codec
          (some 4)
          any_response
          true
          (1 ∷ 2 ∷ [])
          (record no_traffic { inbox = map byte bs ++ byte 3 ∷ [] })
        ≡ (ok (http_header, teapot), record no_traffic { inbox = byte 3 ∷ []; deadline = none }))
unfolding marshal_body
receive-send_example =
    receive-send small_codec small_codec-IsCodec (some 9) (some 4) true any_response http_header
      (some teapot) a_response (1 ∷ 7 ∷ []) (418 ∷ 65 ∷ 66 ∷ []) (1 ∷ 2 ∷ []) no_traffic no_traffic
      (byte 3 ∷ []) refl refl refl refl refl (omega arith) refl

-- The head of a frame that announces more than MaxReceiveSize bytes.
abbrev long_head : List ℕ
long_head = put_uint32 rpc_begin_flag ++ (put_uint32 (max_receive_size + 1) ++ put_uint32 2)

receive_rejects_example :
    let got =
      (receive small_codec none any_response true []
        (record no_traffic { inbox = map byte long_head ++ byte 9 ∷ [] })).0 in
    (uint32 long_head ≢ rpc_begin_flag → (x : Error) × (got ≡ err x) × (is_close x ≡ true))
    × (uint32 long_head ≡ rpc_begin_flag
        → max_receive_size < uint32 (drop 4 long_head)
        → got ≡ panic "body length too big")
    × (uint32 long_head ≡ rpc_begin_flag
        → uint32 (drop 4 long_head) ≤ max_receive_size
        → uint32 (drop 8 long_head) ≡ 0
        → (x : Error) × (got ≡ err x) × (is_close x ≡ false))
receive_rejects_example =
    receive_rejects small_codec none any_response true [] long_head (byte 9 ∷ [])
      (record no_traffic { inbox = map byte long_head ++ byte 9 ∷ [] }) refl refl

wrap_error_classified_example :
    (is_temporary (wrap_error (opaque "x") "read") ≡ is_temporary (opaque "x"))
    × (is_close (wrap_error eof "read") ≡ true)
wrap_error_classified_example = wrap_error_classified (opaque "x") "read"

padding : (n : ℕ) → (bs : List ℕ) × (length bs ≡ n)
padding n = (replicate n 0, length-replicate n 0)

-- A body of more than 50 MiB.
long : (bs : List ℕ) × (length bs ≡ max_receive_size + 1)
long = padding (max_receive_size + 1)

abbrev long_response : Message
long_response =
    http_response (record { status = 200; header = []; body = long.0; not_finish = false })

receive-send_oversized_example :
    let sent = send small_codec none http_header (some long_response) no_traffic in
    (bs : List ℕ) × (sent.0 ≡ ok tt)
    × (sent.1.outbox ≡ [] ++ bs)
    × ((receive small_codec none any_response true []
          (record no_traffic { inbox = map byte bs ++ [] })).0
        ≡ panic "body length too big")
unfolding marshal_body
receive-send_oversized_example =
    receive-send_oversized small_codec small_codec-IsCodec none none true any_response http_header
      (some long_response) (1 ∷ 7 ∷ []) (200 ∷ long.0) [] no_traffic no_traffic [] refl refl refl
      (omega (arith, long.1)) (omega (arith, long.1)) refl
