-- ===== src/Tests/Visit.antt =====
-- A browser's visit at concrete inputs.
use http_portal.Base.{
  ℕ, ◌≡◌, refl, false, none, some, List, [], ◌∷◌, ◌++◌, map, ascii, lookup, nat_eq, string_eq,
  text_eq, arith, header_get, same_text,
}
use http_portal.Core.Errors.{opaque}
use http_portal.Core.Conn.{err, byte, write}
use http_portal.Core.Wire.{Codec, send, rpc_begin_flag}
use http_portal.Core.Wire.Bytes.{put_uint32}
use http_portal.Core.Wire.Stream.{send_all}
use http_portal.Core.Receiver.{new_receiver, prepare_request}
use http_portal.Portal.Receive as Receive
use http_portal.Portal.Request.Transparent.{Passed}
use http_portal.Portal.Writer.{to_field}
use http_portal.Portal.Writer.Stream.{bytes_of}
use http_portal.Server.Clients.{PortalClient, done, get}
use http_portal.Server.Service as Service
use http_portal.Server.Http as Http
use http_portal.Server.Http.{serve_http}
use http_portal.Server.Relay.{ProxyServer, all_lines}
use http_portal.Agent.Handler.Answers.{relocated}
use http_portal.Agent.Handler.{received, get_rewrite_url}
use http_portal.Agent.Handler.Answers.{browser}
use http_portal.System.Relay.{relay}
use http_portal.System.Visit.{asked, visit_end_to_end}
use http_portal.Tests.Requests.{request_codec, request_codec-IsCodec}
use http_portal.Tests.Http.{visit, visit_message, prepare_run}
use http_portal.Tests.Proxy.{plain_parsers, no_rewrite, no_dialing, gone_direct, parse_run}
use http_portal.Tests.Proxy as Proxy
use http_portal.Tests.System.{two_bytes, answered, answered_run, one_sending, response_frame, soon}
use http_portal.Tests.Clients.{quiet, home}

-- The frame of the visit's message, as the request of number 5.
abbrev visit_frame : List ℕ
visit_frame = put_uint32 rpc_begin_flag ++ (put_uint32 3 ++ (put_uint32 2 ++ 1 ∷ 5 ∷ 9 ∷ []))

-- The agent home is logged in, and will answer.
abbrev idle_home : PortalClient
idle_home = record home {
  receiver = record { seq = 4; requests = [] };
  conn = record quiet { inbox = map byte response_frame ++ [] };
}

abbrev one_home : ProxyServer
one_home = record {
  clients = record { clients = (2, idle_home) ∷ []; registered = ("home", 2) ∷ []; watched = [] };
  hosts = (ascii "a.b", "home") ∷ [];
}

abbrev listening : Receive.Reading
listening = record {
  conn = record quiet { inbox = map byte visit_frame ++ [] };
  receiver = new_receiver;
  started = [];
}

abbrev going : Receive.Turn
going = record { pool = []; stopped_before = false; stopped = false }

abbrev codec : Codec
codec = request_codec visit_message

visit_end_to_end_example :
    (Receive.round codec going 0 listening
      ≡ Receive.again 0
          (record listening { conn = quiet; started = (Proxy.request_header, visit_message) ∷ [] }))
    × Passed plain_parsers visit Proxy.asked false
    × ((o : Http.Served) × (serve_http codec gone_direct 0 none visit
            (relay codec
              (err (opaque "nil"))
              5
              (λ n. soon)
              2
              5
              1
              0
              (asked codec none 2 idle_home visit_message one_home.clients))
            browser
            one_home
          ≡ done o)
        × (o.error ≡ none)
        × (o.writer.status ≡ some 200)
        × (o.writer.added
            ≡ all_lines (
                map to_field (
                  relocated
                    (get_rewrite_url no_rewrite Proxy.asked.url).host
                    (header_get "Portal-Host" Proxy.asked.header)
                    [])))
        × (o.writer.body ≡ 1 ∷ 2 ∷ []))
unfolding lookup get prepare_request send send_all write same_text Service.get_msg bytes_of
visit_end_to_end_example =
    visit_end_to_end codec (request_codec-IsCodec visit_message) gone_direct 0 none
      (err (opaque "nil")) 5 plain_parsers "home" none no_rewrite (λ method url. none)
      (λ o. received two_bytes) 512 no_dialing visit visit_message Proxy.asked two_bytes answered 2
      idle_home one_home visit_frame response_frame [] [] going 0 0 listening one_sending quiet
      (λ n. soon) (refl, (refl, (refl, tt))) prepare_run refl refl refl refl refl
      (1 ∷ 5 ∷ [], 9 ∷ [], refl, refl, omega arith) refl refl refl parse_run refl refl tt tt
      (answered_run codec) (refl, refl, tt)
      ((4 ∷ 5 ∷ [], 200 ∷ 1 ∷ 2 ∷ [], refl, refl, omega arith), refl, refl, tt) refl refl refl
