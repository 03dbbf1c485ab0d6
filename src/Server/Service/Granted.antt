-- ===== src/Server/Service/Granted.antt =====
-- portal_server/proxy_server.go: processMsg of a login under a name that is free.
use http_portal.Base.{ℕ, ◌≡◌, refl, none, some, ◌∷◌, lookup, insert, nat_eq, string_eq, true}
use http_portal.Core.Messages.{RpcHeader, LoginRequest, login_request, method_login, success}
use http_portal.Server.Clients.{PortalClient, State, done, put_client, add}
use http_portal.Server.Service.{login, login_client, login_normal, added, as_login, process_msg}

-- The state behind a Login that is granted.
abbrev pub granted : ℕ → PortalClient → State → State
granted id c s =
    let s' = put_client id c s in
    record s' {
      clients = insert id (record c { is_login = true }) s'.clients;
      registered = insert c.name id s.registered;
      watched = id ∷ s.watched;
    }

-- A login, of no websocket, under a free name is granted.
pub process_msg-free :
    (id now : ℕ) (header : RpcHeader) (req : LoginRequest) (c : PortalClient) (s : State)
    → lookup id s.clients ≡ some c
    → lookup req.name s.registered ≡ none
    → req.resp_seq ≡ 0
    → header.method ≡ method_login
    → process_msg id now header (login_request req) s
      ≡ done (record {
        response = some success;
        failure = none;
        state = granted id (record c { name = req.name }) s;
      })
unfolding process_msg as_login login login_client login_normal add added
process_msg-free id now header req c s found free plain is_login =
    rw (is_login, found, plain, free) refl
