-- ===== src/Server/Service/Agreement.antt =====
-- portal_server/proxy_server.go with portal/portal.go: the two programs agree on the messages.
use Prim.Native.String.{◌++◌}
use http_portal.Base.{
  ◌≡◌, ◌≢◌, refl, ◌⊎◌, inl, inr, String, true, false, string_eq, ◌==◌, arith, subst, sym,
  Bool-cases,
}
use text.Mathlib.TextEquality.{eq_iff}
use http_portal.Core.Errors.{Error, opaque}
use http_portal.Core.Messages.{
  RpcHeader, Kind, a_request, a_response, an_ack, method_login, method_heartbeat, method_http_do,
  new_response_header,
}
use http_portal.Core.Conn.{ok, err}
use http_portal.Portal.Service.{get_msg as agent_get_msg, login_get_msg}
use http_portal.Server.Service.{get_msg}

no_request : (h : RpcHeader) → (h.method == method_http_do) ≡ false → agent_get_msg h ≢ ok a_request
unfolding agent_get_msg login_get_msg
no_request h other e = ground arith

-- The answers are understood: the server's answer without an error to every message that its GetMsg
-- accepts as a request is accepted by the agent's getMsg as an acknowledgement, and the agent's
-- response to every message that its getMsg accepts as a request is accepted by the server as a
-- response. But an answer to a login that has an error is refused by getMsg itself.
pub answers_understood :
    (h : RpcHeader)
    → ((k : Kind)
        → get_msg h ≡ ok k
        → (k ≡ a_response) ⊎ (agent_get_msg (new_response_header h) ≡ ok an_ack))
      × (agent_get_msg h ≡ ok a_request → get_msg (new_response_header h) ≡ ok a_response)
      × ((text : String)
          → (h.method == method_login) ≡ true
          → (text == "") ≡ false
          → (x : Error) × (agent_get_msg (record (new_response_header h) { error = text }) ≡ err x))
unfolding get_msg agent_get_msg login_get_msg new_response_header
answers_understood h = (
  λ k e. elim (Bool-cases (h.method == method_login)) [
    | inl is_login ↦ inr (acknowledged "login" is_login refl)
    | inr not_login ↦ elim (Bool-cases (h.method == method_heartbeat)) [
      | inl is_beat ↦ inr (acknowledged "hb" is_beat refl)
      | inr not_beat ↦ inl (ground arith)
    ]
  ],
  λ e. elim (Bool-cases (h.method == method_http_do)) [
    | inl is_http ↦
        subst
          (λ m. get_msg (record { method = "RESP_" ++ m; error = ""; seq = h.seq }) ≡ ok a_response)
          (sym ((eq_iff h.method "http").0 is_http)) refl
    | inr other ↦ absurd (no_request h other e)
  ],
  λ text is_login e. (
    opaque ("login failed, " ++ text),
    subst
        (λ m.
          agent_get_msg (record { method = "RESP_" ++ m; error = text; seq = h.seq })
          ≡ err (opaque ("login failed, " ++ text)))
        (sym ((eq_iff h.method "login").0 is_login)) (rw e refl),
  ),
)
  where
    acknowledged :
        (name : String)
        → (h.method == name) ≡ true
        → agent_get_msg (record { method = "RESP_" ++ name; error = ""; seq = h.seq }) ≡ ok an_ack
        → agent_get_msg (new_response_header h) ≡ ok an_ack
    acknowledged name same at_name =
        subst
          (λ m.
            agent_get_msg (record { method = "RESP_" ++ m; error = ""; seq = h.seq }) ≡ ok an_ack)
          (sym ((eq_iff h.method name).0 same)) at_name
