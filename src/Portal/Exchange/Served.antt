-- ===== src/Portal/Exchange/Served.antt =====
-- portal/portal.go: httpRequest with a handler that ends.
use http_portal.Base.{ℕ, ◌≡◌, refl, String, true, false, Option, none, List, map}
use http_portal.Core.Errors.{Error}
use http_portal.Core.Messages.{RpcHeader, HttpRequest, new_response_header}
use http_portal.Core.Conn.{ok}
use http_portal.Core.Wire.{Codec}
use http_portal.Portal.Writer.{Writer, new_writer, flush}
use http_portal.Portal.Request.{Parsers, Request, parsed, parse_http_request}
use http_portal.Portal.Exchange.{
  Handshake, Handler, Dialing, returns, http_request, with_request, finished, flushed,
}

-- The messages of the handler's writer are sent, each behind the header of the response.
pub http_request-served :
    (codec : Codec) (parsers : Parsers) (name : String) (ws_handler : Option Handshake)
    (handler : Handler) (capacity : ℕ) (n : Dialing) (answers : List (Option Error))
    (header : RpcHeader) (q : HttpRequest) (a : Request) (w : Writer)
    → parse_http_request parsers q ≡ parsed a false
    → handler a (new_writer capacity answers) ≡ ok w
    → (flush true w).0 ≡ none
    → http_request codec parsers name ws_handler handler capacity n answers header q
      ≡ returns (record {
        sent = map (λ r. (new_response_header header, r)) (flush true w).1.sent;
        transferred = true;
        upgrade = none;
      })
unfolding http_request with_request finished flushed
http_request-served codec parsers name ws_handler handler capacity n answers header q a w parses
      served flushes =
    rw (parses, with_request, served, finished, flushed, flushes) refl
