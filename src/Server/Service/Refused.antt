-- ===== src/Server/Service/Refused.antt =====
-- portal_server/proxy_server.go: processMsg of a login under a name that is taken.
use http_portal.Base.{ℕ, ◌≡◌, refl, none, some, lookup, nat_eq, string_eq}
use http_portal.Core.Errors.{opaque}
use http_portal.Core.Messages.{RpcHeader, LoginRequest, login_request, method_login}
use http_portal.Server.Clients.{PortalClient, State, done, put_client, add}
use http_portal.Server.Service.{login, login_client, login_normal, added, as_login, process_msg}

-- The login has no answer but an error, and the object has taken the name.
pub process_msg-taken :
    (id other now : ℕ) (header : RpcHeader) (req : LoginRequest) (c : PortalClient) (s : State)
    → lookup id s.clients ≡ some c
    → lookup req.name s.registered ≡ some other
    → req.resp_seq ≡ 0
    → header.method ≡ method_login
    → process_msg id now header (login_request req) s
      ≡ done (record {
        response = none;
        failure = some (opaque "client name exists");
        state = put_client id (record c { name = req.name }) s;
      })
unfolding process_msg as_login login login_client login_normal add added
process_msg-taken id other now header req c s found taken plain is_login =
    rw (is_login, found, plain, taken) refl
