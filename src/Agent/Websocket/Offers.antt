-- ===== src/Agent/Websocket/Offers.antt =====
-- portal/websocket.go, GetWebsocketConfig, and portal_agent/handler.go, Handshake and clientHandshake:
-- the browser's Sec-Websocket-Protocol on its way to the service.
use http_portal.Base.{◌≡◌, false, header_get, text_eq}
use http_portal.Portal.Request.{Parsers, Request}
use http_portal.Portal.Websocket.{Config}
use http_portal.Portal.Websocket.Taken.{Taken}
use http_portal.Agent.Websocket.{has_byte}

-- The values that clientHandshake writes have no line end.
abbrev pub OneLine : Parsers → Config → Type 0
OneLine parsers c =
    (has_byte 10 (parsers.request_uri c.location) ≡ false)
    × (has_byte 10 c.location.host ≡ false)
    × (has_byte 10 (parsers.url_text c.origin) ≡ false)
    × (has_byte 10 (header_get "Sec-Websocket-Key" c.header) ≡ false)
    × (has_byte 10 (header_get "Sec-Websocket-Protocol" c.header) ≡ false)
