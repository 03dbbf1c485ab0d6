-- ===== src/Tests/Proxy.antt =====
-- portal/portal.go, portal/websocket.go and portal_agent/handler.go: the agent's way of a request, at
-- concrete inputs.
use http_portal.Base.{
  ℕ, ◌≡◌, refl, inl, inr, Bool, true, false, none, some, List, [], ◌∷◌, ◌++◌, map, lookup,
  string_eq, text_eq, same_text, ◌==◌, Text, ascii, arith, header_get, contains, has_prefix,
  if◌then◌else◌, trim_space, trim_left, trim_right, insert,
}
use http_portal.Core.Errors.{opaque, error_text}
use http_portal.Core.Messages.{RpcHeader, login_request, HttpRequest, HttpResponse}
use http_portal.Core.Conn.{Conn, ok, byte, write}
use http_portal.Core.Wire.{send}
use http_portal.Portal.Writer.{piece}
use http_portal.Portal.Request.{
  Parsers, Url, Request, parsed, malformed, parse_http_request, add_fields, is_websocket, raw_url,
}
use http_portal.Portal.Request.Transparent.{Passed, parse-prepare}
use http_portal.Portal.Websocket.{Config, get_websocket_config, protocols_of}
use http_portal.Portal.Exchange.{Dialing, returns, crashes, http_request}
use http_portal.Portal.Exchange.Refusal.{malformed_request_reported}
use http_portal.Portal.Exchange.Crash.{bad_flag_crashes}
use http_portal.Server.Clients.{rpc_message}
use http_portal.Server.Relay.{HttpWriter, Forwarded, forward}
use http_portal.Agent.Handler.{Response}
use http_portal.Agent.Websocket.{handshake, has_byte, parse_authority, splits, port_of}
use http_portal.Agent.Websocket.Addresses.{IsName, IsLiteral, parse_authority_lem}
use http_portal.Tests.Clients.{quiet}
use http_portal.Tests.Connection.{login_codec}
use http_portal.Tests.Http.{visit, visit_message, prepare_run}

-- A parser that takes one version of HTTP, and any text but the empty one as a URL.
abbrev pub plain_parsers : Parsers
plain_parsers = record {
  parse_http_version = λ v. if v == "HTTP/1.1" then some (1, 1) else none;
  parse_request_uri = λ u.
      if u == []
      then inl (opaque "empty url")
      else inr (record { scheme = ascii "http"; host = ascii "a.b"; rest = u });
  request_uri = λ u. u.rest;
  url_text = λ u. u.host ++ u.rest;
}

abbrev pub asked : Request
asked = record {
  method = "GET";
  proto = "HTTP/1.1";
  proto_major = 1;
  proto_minor = 1;
  header =
      ("Portal-Deep", ascii "3" ∷ [])
      ∷ ("Accept", ascii "*" ∷ [])
      ∷ ("Portal-Host", ascii "a.b:80" ∷ [])
      ∷ [];
  request_uri = ascii "/a";
  host = ascii "a.b";
  remote_addr = "";
  url = record { scheme = ascii "http"; host = ascii "a.b"; rest = ascii "http://a.b/a" };
  body = [];
}

pub parse_run : parse_http_request plain_parsers visit_message ≡ parsed asked false
unfolding parse_http_request add_fields is_websocket header_get raw_url has_prefix same_text lookup
    insert
parse_run = refl

parse-prepare_example : Passed plain_parsers visit asked false
unfolding lookup
parse-prepare_example =
    parse-prepare plain_parsers visit visit_message asked false (refl, (refl, (refl, tt)))
      prepare_run parse_run

abbrev pub request_header : RpcHeader
request_header = record { method = "http"; error = ""; seq = 5 }

abbrev pub no_dialing : Dialing
no_dialing = record { now = 0; server_write = 5; pool = []; dial = inl (opaque "no network") }

abbrev pub gone_direct : ℕ → HttpWriter → Forwarded
gone_direct id w = record { code = 200; error = none; writer = w; beats = 0 }

-- The service behind the agent redirects.
abbrev moved : Response
moved = record {
  status_code = 302;
  header = ("Location", ascii "http://a.b/c" ∷ []) ∷ [];
  body = piece (1 ∷ 2 ∷ []) none ∷ [];
}

abbrev pub no_rewrite : List (Text × Text)
no_rewrite = []

abbrev old_message : HttpRequest
old_message = record visit_message { req_proto = "HTTP/9" }

old_run :
    parse_http_request plain_parsers old_message
    ≡ malformed (opaque "HTTP/9 malformed HTTP version")
unfolding parse_http_request add_fields is_websocket header_get
old_run = refl

malformed_request_reported_example :
    (h : RpcHeader) × (r : HttpResponse) × (http_request login_codec plain_parsers "home" none
        (λ a w. ok w)
        512
        no_dialing
        []
        request_header
        old_message
      ≡ returns (record { sent = (h, r) ∷ []; transferred = false; upgrade = none }))
    × (h.seq ≡ 5)
    × (r.status ≡ 500)
    × ((first : Bool) (w : HttpWriter)
        → (let f = forward gone_direct first (rpc_message h r ∷ []) w in
            (f.code ≡ 502)
            × (f.error ≡ some (opaque "HTTP/9 malformed HTTP version"))
            × (f.writer ≡ w)))
unfolding error_text
malformed_request_reported_example =
    malformed_request_reported login_codec plain_parsers "home" none (λ a w. ok w) 512 no_dialing
      gone_direct request_header old_message (opaque "HTTP/9 malformed HTTP version") old_run

-- A websocket request, and a server that answers the login with twelve bytes of something else.
abbrev upgrade_message : HttpRequest
upgrade_message = record visit_message {
  header =
      record { key = "Upgrade"; value = ascii "WebSocket" ∷ [] }
      ∷ record { key = "Connection"; value = ascii "keep-alive, Upgrade" ∷ [] }
      ∷ record { key = "Sec-Websocket-Key"; value = ascii "k" ∷ [] }
      ∷ record { key = "Sec-Websocket-Version"; value = ascii "13" ∷ [] }
      ∷ record { key = "Origin"; value = ascii "http://a.b" ∷ [] }
      ∷ [];
}

abbrev upgrading : Request
upgrading = record asked {
  header =
      ("Upgrade", ascii "WebSocket" ∷ [])
      ∷ ("Connection", ascii "keep-alive, Upgrade" ∷ [])
      ∷ ("Sec-Websocket-Key", ascii "k" ∷ [])
      ∷ ("Sec-Websocket-Version", ascii "13" ∷ [])
      ∷ ("Origin", ascii "http://a.b" ∷ [])
      ∷ [];
  url = record { scheme = ascii "http"; host = ascii "a.b"; rest = ascii "ws://a.b/a" };
}

abbrev socket_config : Config
socket_config = record {
  header = upgrading.header;
  version = 13;
  location = record {
    scheme = ascii "http";
    host = ascii "a.b";
    rest = ascii "ws://a.bws://a.b/a";
  };
  origin = record { scheme = ascii "http"; host = ascii "a.b"; rest = ascii "http://a.b" };
  protocol = [];
}

upgrade_run : parse_http_request plain_parsers upgrade_message ≡ parsed upgrading true
unfolding parse_http_request add_fields is_websocket header_get raw_url has_prefix contains
    same_text lookup insert
upgrade_run = refl

config_run : get_websocket_config plain_parsers upgrading ≡ inr socket_config
unfolding get_websocket_config header_get protocols_of trim_space same_text lookup trim_left
    trim_right
config_run = refl

abbrev twelve : List ℕ
twelve = 72 ∷ 84 ∷ 84 ∷ 80 ∷ 47 ∷ 49 ∷ 46 ∷ 49 ∷ 32 ∷ 52 ∷ 48 ∷ 48 ∷ []

abbrev other_server : Conn
other_server = record quiet { inbox = map byte twelve }

bad_flag_crashes_example :
    http_request login_codec plain_parsers "home"
      (some (handshake []))
      (λ a w. ok w)
      512
      (record no_dialing { dial = inr other_server })
      []
      request_header
      upgrade_message
    ≡ crashes "nil pointer"
unfolding send write
bad_flag_crashes_example =
    bad_flag_crashes login_codec plain_parsers "home" (handshake []) (λ a w. ok w) 512
      (record no_dialing { dial = inr other_server }) [] request_header upgrade_message upgrading
      socket_config other_server
      (send login_codec (some 5) (record { method = "login"; error = ""; seq = 0 })
        (some (login_request (record { name = "home"; resp_seq = 5 }))) other_server).1
      twelve [] upgrade_run config_run refl refl refl refl (λ e. omega (arith, e))

abbrev local_address : Url
local_address = record { scheme = ascii "ws"; host = ascii "[::1]"; rest = ascii "/" }

parse_authority_lem_example :
    (splits local_address.host ≡ true → parse_authority local_address ≡ local_address.host)
    × (IsName local_address.host
        → (parse_authority local_address ≡ local_address.host ++ 58 ∷ ascii "80")
          × (splits (parse_authority local_address) ≡ true))
    × ((v : Text)
        → local_address.host ≡ 91 ∷ (v ++ 93 ∷ [])
        → has_byte 58 v ≡ true
        → IsLiteral v
        → (parse_authority local_address ≡ 91 ∷ (local_address.host ++ 93 ∷ 58 ∷ ascii "80"))
          × (splits (parse_authority local_address) ≡ false))
unfolding port_of same_text
parse_authority_lem_example = parse_authority_lem local_address (ascii "80") refl
