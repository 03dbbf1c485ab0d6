-- ===== src/Tests/Agreement.antt =====
-- portal/portal.go and portal_server/proxy_server.go: the messages of both programs.
use http_portal.Base.{◌≡◌, refl, ◌⊎◌, String, true, false, [], ◌∷◌, string_eq, ◌==◌}
use http_portal.Core.Errors.{Error}
use http_portal.Core.Messages.{
  RpcHeader, Message, Kind, HttpRequest, ack, success, a_request, a_response, an_ack, method_login,
  new_response_header,
}
use http_portal.Core.Conn.{ok, err}
use http_portal.Core.Receiver.{Receiver, waiting, send_response}
use http_portal.Portal.Service.{
  get_msg as agent_get_msg, login_get_msg, process_msg, starts, handed_over, process_msg-get_msg,
}
use http_portal.Server.Service.{get_msg}
use http_portal.Server.Service.Agreement.{answers_understood}

abbrev login_header : RpcHeader
login_header = record { method = "login"; error = ""; seq = 1 }

abbrev login_answer : RpcHeader
login_answer = record { method = "RESP_login"; error = ""; seq = 1 }

abbrev accepted : Message
accepted = ack (record { code = success })

abbrev one_waits : Receiver (RpcHeader × Message)
one_waits = record { seq = 1; requests = (1, waiting) ∷ [] }

answers_understood_example :
    ((k : Kind)
      → get_msg login_header ≡ ok k
      → (k ≡ a_response) ⊎ (agent_get_msg (new_response_header login_header) ≡ ok an_ack))
    × (agent_get_msg login_header ≡ ok a_request
        → get_msg (new_response_header login_header) ≡ ok a_response)
    × ((text : String)
        → (login_header.method == method_login) ≡ true
        → (text == "") ≡ false
        → (x : Error) × (agent_get_msg (record (new_response_header login_header) { error = text })
            ≡ err x))
answers_understood_example = answers_understood login_header

process_msg-get_msg_example :
    ((q : HttpRequest) × (process_msg login_answer accepted one_waits ≡ starts login_answer q))
    ⊎ (process_msg login_answer accepted one_waits
        ≡ handed_over
            (send_response 1 (login_answer, accepted) one_waits).0
            (send_response 1 (login_answer, accepted) one_waits).1)
unfolding agent_get_msg login_get_msg
process_msg-get_msg_example = process_msg-get_msg login_answer an_ack accepted one_waits refl refl
