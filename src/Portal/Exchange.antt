-- ===== src/Portal/Exchange.antt =====
-- portal/portal.go: httpRequest, the goroutine that answers one request of the server, with
-- handleWebsocketRequest, sendHttpError and sendHttpResponse.
-- The handlers that the program gives to LocalPortal are parameters. What goes to the server is the
-- list of messages of which Send returned no error; `answers` scripts those calls, and they succeed
-- when the script is over.
pub mod Served
pub mod Refusal
pub mod Crash
use http_portal.Base.{
  ℕ, String, Bool, true, false, Option, none, some, List, [], ◌∷◌, ◌++◌, ◌⊎◌, inl, inr, map, Text,
  ascii,
}
use http_portal.Core.Errors.{Error, opaque, with_message, error_text, innermost}
use http_portal.Core.Messages.{
  RpcHeader, HttpRequest, HttpResponse, LoginRequest, new_response_header,
}
use http_portal.Core.Conn.{Conn, Outcome, ok, err, panic}
use http_portal.Core.Wire.{Codec}
use http_portal.Portal.Writer.{Writer, blank_response, new_writer, flush}
use http_portal.Portal.Request.{Parsers, Request, Parsed, malformed, parsed, parse_http_request}
use http_portal.Portal.Websocket.{
  WebsocketProxy, Config, connect, get_websocket_config, write_error_response,
}

-- WebsocketHandler.Handshake, which may change the configuration and the request that it is given.
abbrev pub Handshake : Type 0
Handshake = Config → Request → Option Error × (Config × Request)

-- http.Handler.ServeHTTP: what it leaves of the writer, or a panic.
abbrev pub Handler : Type 0
Handler = Request → Writer → Outcome Writer

-- What the network does to handleWebsocketRequest: the clock and timeout of the login's Send, the
-- buffer that Receive gets, and the dial.
pub record Dialing : Type 0 where
  pub now : ℕ
  pub server_write : ℕ
  pub pool : List ℕ
  pub dial : Error ⊎ Conn

-- How handleWebsocketRequest ends: with a status and an error, with the handshake refused, or with
-- the proxy served by the handler; or it panics. A proxy that was made is given.
pub data Upgrade : Type 0 where
  failed : ℕ → Error → Option WebsocketProxy → Upgrade
  forbidden : WebsocketProxy → Upgrade
  switching : Config → Request → WebsocketProxy → Upgrade
  panics : String → Upgrade

-- The messages sent to the server, with their headers; whether lastTransfer was set; and what became
-- of a websocket.
pub record Answered : Type 0 where
  pub sent : List (RpcHeader × HttpResponse)
  pub transferred : Bool
  pub upgrade : Option Upgrade

-- httpRequest returns, or it panics.
pub data Ended : Type 0 where
  returns : Answered → Ended
  crashes : String → Ended

-- sendHttpError: an error of Send is dropped.
unfoldable pub send_http_error :
    List (Option Error) → RpcHeader → ℕ → Error → List (RpcHeader × HttpResponse)
send_http_error (some x ∷ answers) header status e = []
send_http_error _ header status e =
    (record header { error = error_text e }, record blank_response { status = status }) ∷ []

handshake_done : Option Error × (Config × Request) → WebsocketProxy → Upgrade
handshake_done (some e, changed) p =
    forbidden (write_error_response (ascii "403") (with_message e "Forbidden") p)
handshake_done (none, (config, req)) p = switching config req p

after_connect : Handshake → Request → Config → Outcome (Unit {0}) × Option WebsocketProxy → Upgrade
unfolding handshake_done
after_connect handshake req config (ok u, some p) = handshake_done (handshake config req) p
after_connect handshake req config (ok u, none) = panics "nil pointer"
after_connect handshake req config (err e, p) =
    failed 500 (with_message e "build websocket proxy error") p
after_connect handshake req config (panic s, p) = panics s

module _ (codec : Codec) (parsers : Parsers) (name : String) (ws_handler : Option Handshake) where
  with_config : Dialing → Handshake → Request → ℕ → (ℕ × Error) ⊎ Config → Upgrade
  unfolding after_connect
  with_config n handshake req login_seq (inl (status, e)) =
      failed status (with_message e "websocket error") none
  with_config n handshake req login_seq (inr config) = after_connect handshake req config (
      connect codec n.now n.server_write n.pool n.dial
        (record { name = name; resp_seq = login_seq }))

  with_handler : Option Handshake → Dialing → Request → ℕ → Upgrade
  unfolding with_config
  with_handler none n req login_seq = failed 501 (opaque "websocket request not support") none
  with_handler (some handshake) n req login_seq =
      with_config n handshake req login_seq (get_websocket_config parsers req)

  -- handleWebsocketRequest
  unfoldable pub handle_websocket_request : Dialing → Request → ℕ → Upgrade
  unfolding with_handler
  handle_websocket_request n req login_seq = with_handler ws_handler n req login_seq

  -- p.sendHttpError(respHeader, status, errors.Cause(err)), where Cause may be nil.
  upgrade_error : List (Option Error) → RpcHeader → ℕ → Option Error → Upgrade → Ended
  unfolding send_http_error
  upgrade_error answers header status none u = crashes "nil pointer"
  upgrade_error answers header status (some e) u = returns (record {
    sent = send_http_error answers header status e;
    transferred = false;
    upgrade = some u;
  })

  upgraded : List (Option Error) → RpcHeader → Upgrade → Ended
  unfolding upgrade_error
  upgraded answers header (failed status e p) =
      upgrade_error answers header status (innermost e) (failed status e p)
  upgraded answers header (panics s) = crashes s
  upgraded answers header u = returns (record { sent = []; transferred = false; upgrade = some u })

  flushed : RpcHeader → Option Error × Writer → Answered
  flushed header (e, w) = record {
    sent = map (λ resp. (header, resp)) w.sent;
    transferred = elim e [ none ↦ true | some x ↦ false ];
    upgrade = none;
  }

  -- What the handler leaves is flushed for the last time.
  finished : RpcHeader → Outcome Writer → Ended
  unfolding flushed
  finished header (ok w) = returns (flushed header (flush true w))
  finished header (err e) = crashes (error_text e)
  finished header (panic p) = crashes p

  module _ (handler : Handler) (capacity : ℕ) where
    -- httpRequest, behind parseHttpRequest.
    with_request : Dialing → List (Option Error) → RpcHeader → Parsed → Ended
    unfolding send_http_error upgraded finished
    with_request n answers header (malformed e) = returns (record {
      sent = send_http_error answers header 500 e;
      transferred = false;
      upgrade = none;
    })
    with_request n answers header (parsed req true) =
        upgraded answers header (handle_websocket_request n req header.seq)
    with_request n answers header (parsed req false) =
        finished header (handler req (new_writer capacity answers))

    -- httpRequest
    unfoldable pub http_request : Dialing → List (Option Error) → RpcHeader → HttpRequest → Ended
    unfolding with_request
    http_request n answers header req =
        with_request n answers (new_response_header header) (parse_http_request parsers req)
