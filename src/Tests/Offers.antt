-- ===== src/Tests/Offers.antt =====
-- portal_agent/handler.go: the handshake with the service, at a concrete request.
use http_portal.Base.{
  String, ◌≡◌, refl, some, List, [], ◌∷◌, ◌++◌, lookup, string_eq, text_eq, Text, ascii, Header,
  header_get, split, join, same_text, has_prefix,
}
use http_portal.Portal.Request.{Request}
use http_portal.Portal.Websocket.{Config}
use http_portal.Agent.Websocket.{handshake, client_handshake, rewrite_url, remove_zone}
use http_portal.Server.Http.Number.{itoa}
use http_portal.Agent.Websocket.Lines.{offered, is_offer, first_offer}
use http_portal.Tests.Proxy.{plain_parsers, asked}

abbrev offering : Request
offering = record asked {
  header =
      ("Sec-Websocket-Key", ascii "k" ∷ [])
      ∷ ("Sec-Websocket-Version", ascii "13" ∷ [])
      ∷ ("Origin", ascii "http://a.b" ∷ [])
      ∷ ("Sec-Websocket-Protocol", ascii " chat ,, mail" ∷ [])
      ∷ [];
}

abbrev chat_config : Config
chat_config = record {
  header = offering.header;
  version = 13;
  location = record {
    scheme = ascii "http";
    host = ascii "a.b";
    rest = ascii "ws://a.bhttp://a.b/a";
  };
  origin = record { scheme = ascii "http"; host = ascii "a.b"; rest = ascii "http://a.b" };
  protocol = ascii "chat" ∷ [] ∷ ascii "mail" ∷ [];
}

abbrev no_fields : Header → List String → Text
no_fields h left_out = []

abbrev rewrites : List (Text × Text)
rewrites = (ascii "a.b", ascii "c.d:81") ∷ []

-- What the service is offered.
offered_run :
    offered (client_handshake plain_parsers no_fields (handshake rewrites chat_config offering).1.0)
    ≡ some (32 ∷ ascii "chat, , mail" ++ 13 ∷ [])
unfolding client_handshake handshake offered is_offer first_offer header_get join split has_prefix
    rewrite_url lookup same_text remove_zone itoa
offered_run = refl
