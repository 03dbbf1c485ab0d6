-- ===== src/Tests/System.antt =====
-- portal/portal.go and portal_server/proxy_server.go together, at concrete inputs.
use http_portal.Base.{
  ℕ, ◌*◌, ◌≡◌, refl, true, false, none, some, List, [], ◌∷◌, ◌++◌, map, lookup, insert, nat_eq,
  string_eq, arith, same_text, header_get, header_add, header_set, contains, has_prefix, push_first,
  replace_first, split, trim_left, trim_right, trim_space,
}
use http_portal.Core.Errors.{opaque, second}
use http_portal.Core.Messages.{
  RpcHeader, Kind, HttpResponse, http_response, ack, success, a_response, new_response_header,
}
use http_portal.Core.Conn.{Outcome, ok, err, byte, write}
use http_portal.Core.Wire.{Codec, send, receive, rpc_begin_flag}
use http_portal.Core.Wire.Bytes.{put_uint32}
use http_portal.Core.Wire.Stream.{Sending, send_all, receive_all, messages, receive_all-send_all}
use http_portal.Core.Receiver.{new_receiver, idle, prepare_request}
use http_portal.Portal.Service.{get_msg}
use http_portal.Portal.Agent as Agent
use http_portal.Portal.Agent.{hb_not_login, hb_ok}
use http_portal.Portal.Session.{RpcMessage, Session, Call, login, send_with_context, wait_for}
use http_portal.Portal.Session.Waiting.{Quiet}
use http_portal.Portal.Session.Beats.{Round, Beating, heartbeat_loop}
use http_portal.Portal.Session.Beats.Shadow.{shadow}
use http_portal.Portal.Session.Beats.Simulation.{GoesOn, networks, heartbeat_loop-GoesOn}
use http_portal.Server.Clients.{PortalClient, State, new_portal_client}
use http_portal.Server.Service as Server
use http_portal.Server.Connection.{Turn, again, round}
use http_portal.System.Login.{login_end_to_end}
use http_portal.Portal.Writer as Writer
use http_portal.Portal.Writer.{piece}
use http_portal.Portal.Request.{parse_http_request, raw_url, is_websocket, add_fields}
use http_portal.Portal.Exchange.{Answered, returns, http_request}
use http_portal.Agent.Handler.{
  Response, received, serve, serve_http, begin_response, add_all, add_values, get_rewrite_url,
  location_back, outgoing,
}
use http_portal.Agent.Handler.Answers.{GetsAnswer}
use http_portal.System.Relay.{relay}
use http_portal.System.Answer.{answer_over_the_wire}
use http_portal.Tests.Http.{visit_message}
use http_portal.Tests.Proxy.{
  plain_parsers, no_rewrite, no_dialing, gone_direct, asked, request_header, parse_run,
}
use http_portal.Tests.Codec.{small_codec, small_codec-IsCodec, small_codec-Calm}
use http_portal.Tests.Clients.{quiet, home}

abbrev whole : List ℕ → Sending
whole body = record {
  deadline = some 9;
  header = record { method = "http"; error = ""; seq = 7 };
  message = http_response (record { status = 200; header = []; body = body; not_finish = false });
}

abbrev any_response : RpcHeader → Outcome Kind
any_response h = ok a_response

receive_all-send_all_example :
    (bs : List ℕ) × ((send_all small_codec (whole (1 ∷ []) ∷ whole (2 ∷ 3 ∷ []) ∷ []) quiet).0
      ≡ ok tt)
    × ((send_all small_codec (whole (1 ∷ []) ∷ whole (2 ∷ 3 ∷ []) ∷ []) quiet).1.outbox ≡ [] ++ bs)
    × (receive_all small_codec any_response
          (λ n. [])
          2
          (record quiet { inbox = map byte bs ++ byte 5 ∷ [] })
        ≡ (
          ok (messages (whole (1 ∷ []) ∷ whole (2 ∷ 3 ∷ []) ∷ [])),
          record quiet { inbox = byte 5 ∷ []; deadline = none },
        ))
receive_all-send_all_example =
    receive_all-send_all small_codec small_codec-IsCodec any_response
      (whole (1 ∷ []) ∷ whole (2 ∷ 3 ∷ []) ∷ []) quiet quiet (λ n. []) (byte 5 ∷ [])
      (
        (1 ∷ 7 ∷ [], 200 ∷ 1 ∷ [], refl, refl, omega arith),
        refl,
        refl,
        ((1 ∷ 7 ∷ [], 200 ∷ 2 ∷ 3 ∷ [], refl, refl, omega arith), refl, refl, tt),
      )
      refl refl

-- An agent that has connected, and a call in which its login is granted.
abbrev connected : Session
connected = record {
  portal = record { status = hb_not_login; last_transfer = 0; conns = 1; closes = 0 };
  conn = quiet;
  receiver = new_receiver;
}

abbrev granted_answer : RpcMessage
granted_answer =
    (record { method = "RESP_login"; error = ""; seq = 1 }, ack (record { code = success }))

abbrev granted_call : Call
granted_call = record {
  now = 3;
  early = granted_answer ∷ [];
  answers = granted_answer ∷ [];
  ended = opaque "context deadline exceeded";
}

-- The frame of the login, as home and under the number 1.
abbrev login_frame : List ℕ
login_frame = put_uint32 rpc_begin_flag ++ (put_uint32 3 ++ (put_uint32 2 ++ 2 ∷ 1 ∷ 0 ∷ []))

abbrev visitor : PortalClient
visitor = record (new_portal_client quiet 5) {
  conn = record quiet { inbox = map byte login_frame ++ [] };
}

abbrev reception : State
reception = record { clients = (4, visitor) ∷ []; registered = ("other", 2) ∷ []; watched = [] }

abbrev pub soon : Turn
soon = record { now = 6; pool = []; stopped = false }

login_end_to_end_example :
    let out = login small_codec 5 "home" granted_call connected in
    (st' : State) × (c' : PortalClient) × (bs' : List ℕ) × (round small_codec
        (err (opaque "nil"))
        5
        4
        soon
        0
        reception
      ≡ again 0 st')
    × (lookup "home" st'.registered ≡ some 4)
    × (lookup 4 st'.clients ≡ some c')
    × (c'.name ≡ "home")
    × (c'.is_login ≡ true)
    × (c'.conn.outbox ≡ [] ++ bs')
    × (receive small_codec none get_msg true [] (record quiet { inbox = map byte bs' ++ [] })
        ≡ (ok granted_answer, record quiet { inbox = []; deadline = none }))
    × (out.0 ≡ ok tt)
    × (out.1.portal.status ≡ hb_ok)
    × Quiet out.1.receiver
unfolding new_portal_client prepare_request new_response_header login send_with_context send write
    lookup wait_for
login_end_to_end_example =
    login_end_to_end small_codec small_codec-IsCodec (err (opaque "nil")) 5 5 "home" granted_call
      connected 4 0 soon visitor reception login_frame [] [] [] quiet small_codec-Calm (λ j. refl)
      refl (2 ∷ 1 ∷ [], 0 ∷ [], refl, refl, omega arith) (3 ∷ 1 ∷ [], [], refl, refl, omega arith)
      refl refl refl refl refl refl refl

-- A round in which the login is granted and the heartbeat, which the codec does not know, fails.
abbrev first_round : Round
first_round = record {
  dial = none;
  fresh = quiet;
  login_call = granted_call;
  beat_call = granted_call;
  stopped = false;
}

abbrev resting : Beating
resting = record { session = connected; failed_time = 0; interval = second; timer = second }

heartbeat_loop-GoesOn_example :
    GoesOn
      (Agent.heartbeat_loop
        (networks small_codec 5 "home" ((2 * second, first_round) ∷ []) resting)
        (shadow resting))
      (heartbeat_loop small_codec 5 "home" ((2 * second, first_round) ∷ []) resting)
unfolding lookup
heartbeat_loop-GoesOn_example =
    heartbeat_loop-GoesOn small_codec 5 "home" ((2 * second, first_round) ∷ []) resting
      small_codec-Calm (λ j. refl)
      ((unfold get_msg in (((refl, refl), tt), ((refl, refl), tt))), tt)

-- A service that answers with two bytes, and the one message that httpRequest makes of them.
abbrev pub two_bytes : Response
two_bytes = record { status_code = 200; header = []; body = piece (1 ∷ 2 ∷ []) none ∷ [] }

abbrev one_message : HttpResponse
one_message = record { status = 200; header = []; body = 1 ∷ 2 ∷ []; not_finish = false }

abbrev response_header : RpcHeader
response_header = record { method = "RESP_http"; error = ""; seq = 5 }

abbrev pub answered : Answered
answered = record { sent = (response_header, one_message) ∷ []; transferred = true; upgrade = none }

abbrev pub one_sending : List Sending
one_sending =
    (record { deadline = some 8; header = response_header; message = http_response one_message })
    ∷ []

abbrev pub response_frame : List ℕ
response_frame =
    put_uint32 rpc_begin_flag ++ (put_uint32 5 ++ (put_uint32 2 ++ 4 ∷ 5 ∷ 200 ∷ 1 ∷ 2 ∷ []))

-- The agent home is logged in, and its request with the number 5 is pending.
abbrev busy_home : PortalClient
busy_home = record home {
  receiver = record { seq = 5; requests = (5, idle) ∷ [] };
  conn = record quiet { inbox = map byte response_frame ++ [] };
}

abbrev at_home : State
at_home = record { clients = (2, busy_home) ∷ []; registered = ("home", 2) ∷ []; watched = [] }

pub answered_run :
    (codec : Codec)
    → http_request codec plain_parsers "home" none
        (serve plain_parsers no_rewrite (λ method url. none) (λ o. received two_bytes))
        512
        no_dialing
        []
        request_header
        visit_message
      ≡ returns answered
unfolding http_request same_text header_get lookup insert header_add header_set contains has_prefix
    push_first replace_first split trim_left trim_right trim_space parse_http_request raw_url
    is_websocket add_fields serve serve_http begin_response add_all add_values get_rewrite_url
    location_back outgoing Writer.read_from Writer.read_loop Writer.reader_rounds Writer.round
    Writer.once_grown Writer.grow_buf Writer.absorb Writer.deliver Writer.fill Writer.flush
    Writer.flush_if_full Writer.mix Writer.new_writer Writer.put Writer.read Writer.write
    Writer.write_header new_response_header
answered_run codec = refl

answer_over_the_wire_example :
    GetsAnswer no_rewrite gone_direct asked two_bytes
      (relay small_codec (err (opaque "nil")) 5 (λ n. soon) 2 5 1 0 at_home)
unfolding lookup send_all send write Server.get_msg
answer_over_the_wire_example =
    answer_over_the_wire small_codec small_codec-IsCodec (err (opaque "nil")) 5 plain_parsers "home"
      none no_rewrite (λ method url. none) (λ o. received two_bytes) 512 no_dialing gone_direct
      request_header visit_message asked two_bytes answered one_sending quiet (λ n. soon) 2 0
      response_frame [] at_home parse_run refl refl tt tt refl (answered_run small_codec)
      (refl, refl, tt) ((4 ∷ 5 ∷ [], 200 ∷ 1 ∷ 2 ∷ [], refl, refl, omega arith), refl, refl, tt)
      refl refl (busy_home, refl, refl, refl, refl)
