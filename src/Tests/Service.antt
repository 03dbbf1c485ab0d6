-- ===== src/Tests/Service.antt =====
-- portal_server/proxy_server.go: portalService at concrete inputs.
use http_portal.Base.{
  ◌*◌, ◌≡◌, refl, inr, true, false, none, some, [], ◌∷◌, lookup, insert, nat_eq, string_eq,
}
use http_portal.Core.Errors.{Error, second}
use http_portal.Core.Messages.{RpcHeader, HttpResponse, http_response, success, a_response}
use http_portal.Core.Receiver.{handed, send_response}
use http_portal.Server.Clients.{rpc_message, State, done, panics, remove}
use http_portal.Server.Clients.Invariant.{IsClosed}
use http_portal.Server.Service.{login, end_connection, process_msg, get_msg, send_http_response}
use http_portal.Server.Service.Login.{Serves}
use http_portal.Server.Service.Safety.{process_msg-Serves}
use http_portal.Server.Service.Relogin.{relogin_leaves_closed_client, relogin_evicts_other}
use http_portal.Tests.Clients.{home, fresh, two_clients, two_clients-IsSound}

abbrev answer_header : RpcHeader
answer_header = record { method = "RESP_http"; error = ""; seq = 5 }

abbrev answer : HttpResponse
answer = record { status = 200; header = []; body = 1 ∷ []; not_finish = false }

-- The waiting reader of request 5 is handed the response.
process_msg_run :
    process_msg 1 (3 * second) answer_header (http_response answer) two_clients
    ≡ done (record {
      response = none;
      failure = none;
      state = record two_clients {
        clients =
            (
              1,
              record home {
                receiver = record {
                  seq = 5;
                  requests = (5, handed (rpc_message answer_header answer)) ∷ [];
                };
              },
            )
            ∷ (2, fresh)
            ∷ [];
      };
    })
unfolding process_msg send_http_response send_response lookup insert
process_msg_run = refl

process_msg-Serves_example :
    Serves (process_msg 1 (3 * second) answer_header (http_response answer) two_clients)
unfolding get_msg lookup
process_msg-Serves_example =
    process_msg-Serves 1 (3 * second) answer_header home two_clients two_clients-IsSound refl
      (http_response answer) a_response refl refl refl (inr refl)

relogin_leaves_closed_client_example :
    (s1 : State) × (s2 : State) × (login 1 (record { name = "cabin"; resp_seq = 0 }) two_clients
      ≡ done (record { response = some success; failure = none; state = s1 }))
    × (end_connection 1 s1 ≡ done s2)
    × (lookup "home" s2.registered ≡ some 1)
    × IsClosed s2 1
    × (remove "home" s2 ≡ panics "close of closed channel")
unfolding lookup
relogin_leaves_closed_client_example =
    relogin_leaves_closed_client two_clients 1 home "home" "cabin" refl refl refl refl refl

-- Two agents, of which the second asks for the first one's name.
abbrev rivals : State
rivals = record {
  clients = (1, home) ∷ (2, record fresh { is_login = true }) ∷ [];
  registered = ("home", 1) ∷ ("office", 2) ∷ [];
  watched = 1 ∷ 2 ∷ [];
}

relogin_evicts_other_example :
    (s1 : State) × (s2 : State) × (x : Error) × (login 2
        (record { name = "home"; resp_seq = 0 })
        rivals
      ≡ done (record { response = none; failure = some x; state = s1 }))
    × (end_connection 2 s1 ≡ done s2)
    × (lookup "home" s2.registered ≡ none)
    × IsClosed s2 1
    × (lookup 2 s2.clients ≡ some (record fresh { is_login = true; name = "home" }))
unfolding lookup
relogin_evicts_other_example =
    relogin_evicts_other rivals 2 1 (record fresh { is_login = true }) home "home" refl refl refl
      refl refl refl refl
