-- ===== src/Portal/Websocket/Context.antt =====
-- portal/websocket.go: CtxWithWebsocketConfig and CtxGetWebsocketConfig.
use http_portal.Base.{
  ◌≡◌, refl, String, false, Option, none, some, List, [], ◌∷◌, string_eq, ◌==◌, if◌then◌else◌,
}
use http_portal.Core.Conn.{Outcome, ok, panic}
use http_portal.Portal.Websocket.{Config}

-- What the program puts into a context.Context: the value of a key is that of the last WithValue.
pub data Value : Type 0 where
  websocket_config : Config → Value
  other : String → Value

abbrev pub Context : Type 0
Context = List (String × Value)

unfoldable pub value : String → Context → Option Value
value key [] = none
value key ((k, v) ∷ more) = let rest = value key more in if k == key then some v else rest

-- CtxWithWebsocketConfig
unfoldable pub ctx_with_websocket_config : Context → Config → Context
ctx_with_websocket_config ctx config = ("WS-CONFIG", websocket_config config) ∷ ctx

-- CtxGetWebsocketConfig: another value, or none, makes its type assertion panic.
asserted : Option Value → Outcome Config
asserted (some (websocket_config config)) = ok config
asserted (some (other s)) = panic "interface conversion"
asserted none = panic "interface conversion"

unfoldable pub ctx_get_websocket_config : Context → Outcome Config
unfolding asserted value
ctx_get_websocket_config ctx = asserted (value "WS-CONFIG" ctx)

-- The handler reads the configuration that was put into the context, also below values of other
-- keys; from a context without one it gets a panic.
pub ctx_get-ctx_with :
    (ctx : Context) (config : Config) (key : String) (v : Value)
    → (key == "WS-CONFIG") ≡ false
    → (ctx_get_websocket_config ((key, v) ∷ ctx_with_websocket_config ctx config) ≡ ok config)
      × (ctx_get_websocket_config ((key, v) ∷ []) ≡ panic "interface conversion")
unfolding ctx_get_websocket_config ctx_with_websocket_config value asserted
ctx_get-ctx_with ctx config key v no_clash = rw no_clash (refl, refl)
