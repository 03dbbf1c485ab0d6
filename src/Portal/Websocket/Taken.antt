-- ===== src/Portal/Websocket/Taken.antt =====
-- portal/websocket.go: what GetWebsocketConfig takes of a request.
use http_portal.Base.{
  ℕ, ◌≡◌, refl, Bool, true, false, [], ascii, ◌++◌, ◌⊎◌, inl, inr, header_get, text_eq, ◌==◌,
  if◌then◌else◌,
}
use http_portal.Core.Errors.{Error, opaque}
use http_portal.Portal.Request.{Url, Parsers, Request}
use http_portal.Portal.Websocket.{
  Config, protocols_of, with_origin, with_location, get_websocket_config,
}

-- What GetWebsocketConfig takes of a request.
abbrev pub Taken : Request → (ℕ × Error) ⊎ Config → Type 0
Taken req (inl e) = Unit
Taken req (inr c) =
    (c.header ≡ req.header)
    × (c.version ≡ 13)
    × (c.protocol ≡ protocols_of (header_get "Sec-Websocket-Protocol" req.header))

if-Taken :
    (req : Request) (b : Bool) (x y : (ℕ × Error) ⊎ Config)
    → Taken req x
    → Taken req y
    → Taken req (if b then x else y)
if-Taken req true x y h k = h
if-Taken req false x y h k = k

module _ (parsers : Parsers) where
  with_origin-Taken :
      (req : Request) (u : Url) (o : Error ⊎ Url) → Taken req (with_origin parsers req u o)
  unfolding with_origin
  with_origin-Taken req u (inl e) = tt
  with_origin-Taken req u (inr origin) = (refl, refl, refl)

  with_location-Taken : (req : Request) (o : Error ⊎ Url) → Taken req (with_location parsers req o)
  unfolding with_location
  with_location-Taken req (inl e) = tt
  with_location-Taken req (inr u) =
      if-Taken req (header_get "Origin" req.header == []) _ _ tt (with_origin-Taken req u _)

  pub get_websocket_config-Taken : (req : Request) → Taken req (get_websocket_config parsers req)
  unfolding get_websocket_config
  get_websocket_config-Taken req =
      let location = with_location parsers req (
        parsers.parse_request_uri
          (ascii "ws" ++ (ascii "://" ++ (req.host ++ parsers.request_uri req.url)))) in
      if-Taken req (header_get "Sec-Websocket-Key" req.header == []) _ _ tt (
        if-Taken req
          (if header_get "Sec-Websocket-Version" req.header == ascii "13" then false else true)
          (inl (400, opaque "missing or bad WebSocket Version")) location tt
          (with_location-Taken req _))
