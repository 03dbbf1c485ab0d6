-- ===== src/Portal/Websocket.antt =====
-- portal/websocket.go: websocketProxy, the agent's second connection for one websocket, and
-- GetWebsocketConfig. Nothing is received through the bufio.Reader of the proxy; of its bufio.Writer,
-- `unsent` is what it still holds.
pub mod Context
pub mod Login
pub mod Protocols
pub mod Taken
use Prim.Native.String.{◌++◌ as ◌+++◌}
use http_portal.Base.{
  ℕ, ◌+◌, String, Bool, true, false, Option, none, some, List, [], ◌∷◌, ◌++◌, ◌⊎◌, inl, inr, map,
  string_eq, text_eq, ◌==◌, if◌then◌else◌, Text, ascii, Header, header_get, trim_space, split,
}
use http_portal.Core.Errors.{Error, opaque, with_message, error_text}
use http_portal.Core.Messages.{
  RpcHeader, Message, LoginRequest, AckResponse, AckCode, success, not_login, error, login_request,
  http_request, http_response, heartbeat, ack, method_login,
}
use http_portal.Core.Conn.{
  Conn, Outcome, ok, err, panic, Act, ◌>>=◌, ◌>>◌, return, fail, crash, on_error, write,
}
use http_portal.Core.Wire.{Codec, send, receive}
use http_portal.Portal.Service.{login_get_msg}
use http_portal.Portal.Request.{Url, Parsers, Request}

pub record WebsocketProxy : Type 0 where
  pub conn : Conn
  pub unsent : List ℕ
  pub is_login : Bool
  pub hijacked : Bool

-- respMsg.(*core.AckResponse), and its code.
check_code : AckCode → Act (Unit {0})
check_code success = return tt
check_code _ = fail (opaque "login failed")

ack_code : Message → Act (Unit {0})
unfolding check_code
ack_code (ack resp) = check_code resp.code
ack_code _ = crash "interface conversion"

-- login, up to its last assignment. `now` and `server_write` give the deadline of its Send, `pool`
-- is the buffer that Receive gets.
unfoldable pub login : Codec → ℕ → ℕ → List ℕ → LoginRequest → Act (Unit {0})
unfolding ack_code
login codec now server_write pool login_req = do
  on_error
      (send codec (some (now + server_write))
        (record { method = method_login; error = ""; seq = 0 }) (some (login_request login_req)))
      (λ e. with_message e "send websocket login error")
  answer ←
      on_error (receive codec none login_get_msg true pool)
        (λ e. with_message e "login receive response error")
  ack_code answer.1

-- The proxy that is left by a Connect whose dial succeeded, and how Connect ends.
connected : Outcome (Unit {0}) × Conn → Outcome (Unit {0}) × WebsocketProxy
connected (ok u, conn) =
    (ok tt, record { conn = conn; unsent = []; is_login = true; hijacked = false })
connected (err e, conn) =
    (err e, record { conn = conn; unsent = []; is_login = false; hijacked = false })
connected (panic p, conn) =
    (panic p, record { conn = conn; unsent = []; is_login = false; hijacked = false })

-- Connect; `dial` is what net.DialTimeout returns. Without a connection there is no proxy to use.
unfoldable pub connect :
    Codec
    → ℕ
    → ℕ
    → List ℕ
    → Error ⊎ Conn
    → LoginRequest
    → Outcome (Unit {0}) × Option WebsocketProxy
unfolding connected
connect codec now server_write pool (inl e) login_req = (err (with_message e "dial error"), none)
connect codec now server_write pool (inr conn) login_req =
    let (o, p) = connected (login codec now server_write pool login_req conn) in (o, some p)

-- Close
unfoldable pub close : WebsocketProxy → WebsocketProxy
close p = record p { conn = record p.conn { closed = true } }

-- readWriter.Flush(): an error is dropped.
unfoldable pub flush : WebsocketProxy → WebsocketProxy
flush p = record p { conn = (write p.unsent p.conn).1; unsent = [] }

-- ServeWebSocket, `served` being the proxy as the handler leaves it.
unfoldable pub serve_web_socket : WebsocketProxy → WebsocketProxy
unfolding close flush
serve_web_socket served = close (flush served)

-- The line that an error response has; a status of the program has three digits.
unfoldable pub error_line : Text → Error → Text
unfolding error_text
error_line status e =
    ascii "HTTP/1.1 " ++ (status ++ (ascii " " ++ (ascii (error_text e) ++ 13 ∷ 10 ∷ [])))

-- WriteErrorResponse
unfoldable pub write_error_response : Text → Error → WebsocketProxy → WebsocketProxy
unfolding close flush
write_error_response status e p =
    close (flush (record p { unsent = p.unsent ++ (error_line status e ++ 13 ∷ 10 ∷ []) }))

-- Hijack: http.ErrHijacked, or the connection and its buffers, which stay those of the proxy.
unfoldable pub hijack : WebsocketProxy → Option Error × WebsocketProxy
hijack p =
    if p.hijacked
    then (some (opaque "http: connection has been hijacked"), p)
    else (none, record p { hijacked = true })

-- Write, as a http.ResponseWriter.
unfoldable pub write_body : List ℕ → ℕ × Option Error
write_body bytes = (0, some (opaque "websocketProxy only for websocket"))

-- Header, and WriteHeader, which do nothing but log.
unfoldable pub response_header : WebsocketProxy → Header
response_header p = []

unfoldable pub write_header : ℕ → WebsocketProxy → WebsocketProxy
write_header status p = p

-- *websocket.Config
pub record Config : Type 0 where
  pub header : Header
  pub version : ℕ
  pub location : Url
  pub origin : Url
  pub protocol : List Text

-- The list of a Sec-Websocket-Protocol.
unfoldable pub protocols_of : Text → List Text
protocols_of protocol =
    if trim_space protocol == [] then [] else map trim_space (split 44 (trim_space protocol))

module _ (parsers : Parsers) where
  with_origin : Request → Url → Error ⊎ Url → (ℕ × Error) ⊎ Config
  unfolding protocols_of
  with_origin req location (inl e) = inl (400, with_message e "bad origin")
  with_origin req location (inr origin) = inr (record {
    header = req.header;
    version = 13;
    location = location;
    origin = origin;
    protocol = protocols_of (header_get "Sec-Websocket-Protocol" req.header);
  })

  with_location : Request → Error ⊎ Url → (ℕ × Error) ⊎ Config
  unfolding with_origin
  with_location req (inl e) = inl (400, with_message e "bad url")
  with_location req (inr location) =
      let origin = header_get "Origin" req.header in
      if origin == []
      then inl (400, opaque "null origin")
      else with_origin req location (parsers.parse_request_uri origin)

  -- GetWebsocketConfig of a request without TLS: a status and an error, or the configuration.
  unfoldable pub get_websocket_config : Request → (ℕ × Error) ⊎ Config
  unfolding with_location
  get_websocket_config req =
      if header_get "Sec-Websocket-Key" req.header == []
      then inl (400, opaque "missing or bad challenge response")
      else if not_13 (header_get "Sec-Websocket-Version" req.header)
      then inl (400, opaque "missing or bad WebSocket Version")
      else with_location req (
          parsers.parse_request_uri
            (ascii "ws" ++ (ascii "://" ++ (req.host ++ parsers.request_uri req.url))))
    where
      not_13 : Text → Bool
      not_13 version = if version == ascii "13" then false else true
