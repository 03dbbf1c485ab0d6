-- ===== src/Server/Service/Safety.antt =====
-- portal_server/proxy_server.go: processMsg behind GetMsg.
use http_portal.Base.{
  ℕ, ◌≡◌, refl, ◌⊎◌, inl, inr, false, some, lookup, nat_eq, string_eq, ◌==◌, arith, Bool-cases,
}
use http_portal.Core.Messages.{
  RpcHeader, Message, Kind, a_login, a_heartbeat, a_response, kind_of, http_request, http_response,
  login_request, heartbeat, ack, method_login, method_heartbeat, resp_method_http_do,
}
use http_portal.Core.Conn.{ok}
use http_portal.Server.Clients.{PortalClient, State}
use http_portal.Server.Clients.Invariant.{IsSound}
use http_portal.Server.Service.Login.{
  Serves, login-Serves, serve_heartbeat-Serves, send_http_response-Serves,
}
use http_portal.Server.Service.{get_msg, process_msg, as_login, as_heartbeat, as_response}

module _ (id now : ℕ) (header : RpcHeader) (c : PortalClient) (s : State) (v : IsSound s)
    (found : lookup id s.clients ≡ some c) where
  as_login-Serves :
      (m : Message)
      → kind_of m ≡ a_login
      → c.is_login ≡ false
      → c.quit_closed ≡ false
      → Serves (as_login id m s)
  unfolding as_login
  as_login-Serves (login_request req) k out fresh = login-Serves id req c s v found out fresh
  as_login-Serves (http_request m) k out fresh = cc
  as_login-Serves (http_response m) k out fresh = cc
  as_login-Serves (heartbeat m) k out fresh = cc
  as_login-Serves (ack m) k out fresh = cc

  as_heartbeat-Serves : (m : Message) → kind_of m ≡ a_heartbeat → Serves (as_heartbeat id now m s)
  unfolding as_heartbeat
  as_heartbeat-Serves (heartbeat m) k = serve_heartbeat-Serves id now c s v found
  as_heartbeat-Serves (http_request m) k = cc
  as_heartbeat-Serves (http_response m) k = cc
  as_heartbeat-Serves (login_request m) k = cc
  as_heartbeat-Serves (ack m) k = cc

  as_response-Serves : (m : Message) → kind_of m ≡ a_response → Serves (as_response id header m s)
  unfolding as_response
  as_response-Serves (http_response m) k = send_http_response-Serves id header m c s v found
  as_response-Serves (http_request m) k = cc
  as_response-Serves (heartbeat m) k = cc
  as_response-Serves (login_request m) k = cc
  as_response-Serves (ack m) k = cc

  -- A message of the type that GetMsg made for its header is served by processMsg without a panic (no
  -- type assertion and no nil pointer), and the server stays sound: on a connection that is open,
  -- and not logged in where the message is a login.
  pub process_msg-Serves :
      (m : Message) (k : Kind)
      → get_msg header ≡ ok k
      → kind_of m ≡ k
      → c.quit_closed ≡ false
      → (c.is_login ≡ false) ⊎ ((header.method == method_login) ≡ false)
      → Serves (process_msg id now header m s)
  unfolding get_msg process_msg
  process_msg-Serves m k g same fresh once = elim (Bool-cases (header.method == method_login)) [
    | inl hit ↦ rw hit (as_login-Serves m (ground arith) (ground arith) fresh)
    | inr other ↦ rw other (elim (Bool-cases (header.method == method_heartbeat)) [
      | inl is_hb ↦ rw is_hb (as_heartbeat-Serves m (ground arith))
      | inr not_hb ↦ rw not_hb (elim (Bool-cases (header.method == resp_method_http_do)) [
        | inl is_resp ↦ rw is_resp (as_response-Serves m (ground arith))
        | inr not_resp ↦ rw not_resp (_, refl, v)
      ])
    ])
  ]
