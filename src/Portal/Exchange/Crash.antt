-- ===== src/Portal/Exchange/Crash.antt =====
-- portal/portal.go, httpRequest, of a websocket request, and the error of core/net.go that it takes
-- the cause of.
use http_portal.Base.{
  ℕ, ◌+◌, ◌≡◌, ◌≢◌, refl, String, true, false, Option, none, some, List, ◌++◌, map, length, inr, ap,
}
use http_portal.Core.Errors.{Error, net_root, innermost}
use http_portal.Core.Messages.{RpcHeader, HttpRequest, login_request, new_response_header}
use http_portal.Core.Conn.{Conn, ok, err, byte, Arrival}
use http_portal.Core.Wire.Bytes.{uint32}
use http_portal.Core.Wire.{Codec, send, receive, rpc_begin_flag}
use http_portal.Core.Wire.Faults.{receive-bad_flag}
use http_portal.Portal.Service.{login_get_msg}
use http_portal.Portal.Request.{Parsers, Request, parsed, parse_http_request}
use http_portal.Portal.Websocket.{Config, get_websocket_config}
use http_portal.Portal.Websocket.Login.{login_header, connect-unanswered}
use http_portal.Portal.Exchange.{
  Handshake, Handler, Dialing, crashes, http_request, with_request, handle_websocket_request,
  with_handler, with_config, after_connect, upgraded, upgrade_error,
}

-- A websocket request of the server, where the handshake's header is in order, the server takes the
-- second connection and its login, and then sends twelve bytes that do not begin with the flag of a
-- frame: the agent panics, since the error of Receive has a Cause method that returns nil, and
-- errors.Cause of the whole chain is that nil.
pub bad_flag_crashes :
    (codec : Codec) (parsers : Parsers) (name : String) (handshake : Handshake) (handler : Handler)
    (capacity : ℕ) (n : Dialing) (answers : List (Option Error)) (header : RpcHeader)
    (q : HttpRequest) (a : Request) (config : Config) (conn sent : Conn) (bs : List ℕ)
    (rest : List Arrival)
    → parse_http_request parsers q ≡ parsed a true
    → get_websocket_config parsers a ≡ inr config
    → n.dial ≡ inr conn
    → send codec
        (some (n.now + n.server_write))
        login_header
        (some (login_request (record { name = name; resp_seq = header.seq })))
        conn
      ≡ (ok tt, sent)
    → sent.inbox ≡ map byte bs ++ rest
    → length bs ≡ 12
    → uint32 bs ≢ rpc_begin_flag
    → http_request codec parsers name (some handshake) handler capacity n answers header q
      ≡ crashes "nil pointer"
unfolding http_request with_request handle_websocket_request with_handler with_config after_connect
    upgraded upgrade_error innermost new_response_header
bad_flag_crashes codec parsers name handshake handler capacity n answers header q a config conn sent
      bs rest parses fine dials out came twelve bad =
    let got = (receive codec none login_get_msg true n.pool sent).1 in
    let back : receive codec none login_get_msg true n.pool sent
        ≡ (err (net_root "begin flag wrong" false), got) =
      ap (λ x. (x, got))
        (receive-bad_flag codec none login_get_msg true n.pool bs rest sent twelve came bad) in
    rw
      (
        parses,
        with_request,
        handle_websocket_request,
        with_handler,
        fine,
        with_config,
        dials,
        connect-unanswered codec n.now n.server_write n.pool
            (record { name = name; resp_seq = header.seq }) conn sent got _ out back,
        after_connect,
      )
      refl
