-- ===== src/Portal/Exchange/Refusal.antt =====
-- portal/portal.go, httpRequest, of a message that is no request of the Go library, and
-- portal_server/proxy_server.go, DoRequest, of what the agent sends then.
use http_portal.Base.{ℕ, ◌≡◌, refl, String, Bool, false, Option, none, some, [], ◌∷◌, string_eq}
use http_portal.Core.Errors.{Error, opaque, error_text}
use http_portal.Core.Messages.{RpcHeader, HttpRequest, HttpResponse, new_response_header}
use http_portal.Core.Wire.{Codec}
use http_portal.Portal.Writer.{blank_response}
use http_portal.Portal.Request.{Parsers, malformed, parse_http_request}
use http_portal.Portal.Request.Malformed.{malformed-nonempty}
use http_portal.Portal.Exchange.{
  Handshake, Handler, Dialing, returns, http_request, with_request, send_http_error,
}
use http_portal.Server.Clients.{rpc_message}
use http_portal.Server.Relay.{HttpWriter, Forwarded, forward}
use http_portal.Server.Relay.Failures.{forward_agent_error}

-- A message that does not parse is answered by one message, if Send takes it, and the handlers are
-- not called; that message makes DoRequest return 502 with the text of the error, whatever it has
-- written before, and write nothing more.
pub malformed_request_reported :
    (codec : Codec) (parsers : Parsers) (name : String) (ws_handler : Option Handshake)
    (handler : Handler) (capacity : ℕ) (n : Dialing) (t : ℕ → HttpWriter → Forwarded)
    (header : RpcHeader) (q : HttpRequest) (e : Error)
    → parse_http_request parsers q ≡ malformed e
    → (h : RpcHeader) × (r : HttpResponse) × (http_request codec parsers name ws_handler handler
          capacity n [] header q
        ≡ returns (record { sent = (h, r) ∷ []; transferred = false; upgrade = none }))
      × (h.seq ≡ header.seq)
      × (r.status ≡ 500)
      × ((first : Bool) (w : HttpWriter)
          → (let f = forward t first (rpc_message h r ∷ []) w in
              (f.code ≡ 502) × (f.error ≡ some (opaque (error_text e))) × (f.writer ≡ w)))
unfolding http_request with_request send_http_error new_response_header
malformed_request_reported codec parsers name ws_handler handler capacity n t header q e fails =
    let h : RpcHeader = record (new_response_header header) { error = error_text e } in
    let r : HttpResponse = record blank_response { status = 500 } in
    (
      h,
      r,
      rw (fails, with_request) refl,
      refl,
      refl,
      λ first w.
          let (code, error, writer, beats) =
            forward_agent_error t first h r [] w (malformed-nonempty parsers q e fails) in
          (code, error, writer),
    )
