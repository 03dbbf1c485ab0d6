-- ===== src/Agent/Websocket.antt =====
-- portal_agent/handler.go: WebsocketHandler, up to the handshake with the service; the goroutines that
-- then copy bytes in both directions are left out. net.SplitHostPort, which only has to succeed or
-- fail here, and net.JoinHostPort are written as the Go library has them; Header.WriteSubset, which
-- sorts, is a parameter.
pub mod Positions
pub mod Addresses
pub mod Lines
pub mod Offers
use http_portal.Base.{
  ◌⊎◌, inl, inr, ℕ, zero, suc, ◌+◌, String, Bool, true, false, not, ◌&&◌, ◌||◌, Option, none, some,
  List, [], ◌∷◌, ◌++◌, lookup, take, drop, length, string_eq, text_eq, ◌==◌, if◌then◌else◌, eqb,
  Text, ascii, Header, header_get, has_prefix, last_index, to_lower, join,
}
use http_portal.Core.Errors.{Error, opaque, error_text}
use http_portal.Server.Http.Number.{pos, itoa}
use http_portal.Portal.Request.{Url, Parsers, Request}
use http_portal.Portal.Websocket.{Config, error_line}

-- rewriteUrl, which changes the URL in place.
unfoldable pub rewrite_url : List (Text × Text) → Url → Url
rewrite_url host_rewrite url = elim (lookup url.host host_rewrite) [
  | some v ↦ record url { host = v }
  | none ↦ url
]

-- Handshake: it never refuses, and rewrites the two URLs of the configuration and the request's.
unfoldable pub handshake : List (Text × Text) → Config → Request → Option Error × (Config × Request)
handshake host_rewrite config req = (
  none,
  (
    record config {
      location = rewrite_url host_rewrite config.location;
      origin = rewrite_url host_rewrite config.origin;
    },
    record req { url = rewrite_url host_rewrite req.url },
  ),
)

-- Whether a byte is in a text.
unfoldable pub has_byte : ℕ → Text → Bool
has_byte b [] = false
has_byte b (c ∷ s) = eqb c b || has_byte b s

-- strings.Index of one byte.
unfoldable pub index : ℕ → Text → Option ℕ
index b [] = none
index b (c ∷ s) =
    let rest = index b s in
    if eqb c b then some 0 else elim rest [ some i ↦ some (suc i) | none ↦ none ]

-- Behind a bracket that closes at `close`: the last colon follows it, and no bracket is left over.
bracketed : Text → Option ℕ → ℕ → Bool
bracketed s none colon = false
bracketed s (some close) colon =
    eqb (close + 1) colon
    && (not (has_byte 91 (drop 1 s)) && not (has_byte 93 (drop (close + 1) s)))

split_at : Text → Option ℕ → Bool
unfolding bracketed
split_at s none = false
split_at s (some colon) =
    if has_prefix s (ascii "[")
    then bracketed s (index 93 s) colon
    else not (has_byte 58 (take colon s)) && (not (has_byte 91 s) && not (has_byte 93 s))

-- Whether net.SplitHostPort takes the text.
unfoldable pub splits : Text → Bool
unfolding split_at
splits s = split_at s (last_index 58 s)

-- net.JoinHostPort
unfoldable pub join_host_port : Text → Text → Text
join_host_port host port =
    if has_byte 58 host then 91 ∷ host ++ (93 ∷ 58 ∷ port) else host ++ (58 ∷ port)

-- portMap
unfoldable pub port_of : Text → Option Text
port_of scheme =
    if scheme == ascii "ws"
    then some (ascii "80")
    else if scheme == ascii "wss"
    then some (ascii "443")
    else none

with_port : Option Text → Text → Text
with_port none host = host
with_port (some port) host = if splits host then host else join_host_port host port

-- parseAuthority
unfoldable pub parse_authority : Url → Text
unfolding with_port
parse_authority location = with_port (port_of location.scheme) location.host

-- host[:j] + host[i:]
zone_at : Text → ℕ → Option ℕ → Text
zone_at host i none = host
zone_at host i (some j) = take j host ++ drop i host

bracket_at : Text → Option ℕ → Text
unfolding zone_at
bracket_at host none = host
bracket_at host (some i) = zone_at host i (last_index 37 (take i host))

-- removeZone
unfoldable pub remove_zone : Text → Text
unfolding bracket_at
remove_zone host =
    if not (has_prefix host (ascii "[")) then host else bracket_at host (last_index 93 host)

-- handshakeHeader
unfoldable pub handshake_header : List String
handshake_header =
    "Host" ∷ "Upgrade" ∷ "Connection" ∷ "Sec-Websocket-Key" ∷ "Sec-Websocket-Origin"
    ∷ "Sec-Websocket-Version" ∷ "Sec-Websocket-Protocol" ∷ "Sec-Websocket-Accept" ∷ []

-- What dialRemote dials: an address, and whether by TLS.
unfoldable pub dial_remote : Config → Error ⊎ (Text × Bool)
dial_remote config =
    if config.location.scheme == ascii "ws"
    then inr (parse_authority config.location, false)
    else if config.location.scheme == ascii "wss"
    then inr (parse_authority config.location, true)
    else inl (opaque "bad scheme")

abbrev line : Text → Text
line s = s ++ 13 ∷ 10 ∷ []

protocol_line : List Text → Text
protocol_line [] = []
protocol_line (p ∷ ps) = line (ascii "Sec-WebSocket-Protocol: " ++ join (ascii ", ") (p ∷ ps))

module _ (parsers : Parsers) (write_subset : Header → List String → Text) where
  -- What clientHandshake writes to the service, if no Write fails.
  unfoldable pub client_handshake : Config → Text
  unfolding protocol_line
  client_handshake config =
      line (ascii "GET " ++ (parsers.request_uri config.location ++ ascii " HTTP/1.1"))
      ++ (line (ascii "Host: " ++ remove_zone config.location.host)
          ++ (line (ascii "Upgrade: websocket")
              ++ (line (ascii "Connection: Upgrade")
                  ++ (line (
                        ascii "Sec-WebSocket-Key: " ++ header_get "Sec-Websocket-Key" config.header)
                      ++ (line (ascii "Origin: " ++ to_lower (parsers.url_text config.origin))
                          ++ (line (ascii "Sec-WebSocket-Version: " ++ itoa (pos config.version))
                              ++ (protocol_line config.protocol
                                  ++ (write_subset config.header handshake_header
                                      ++ 13 ∷ 10 ∷ []))))))))

-- writeErrorResponse: what is written and flushed.
unfoldable pub write_error_response : Text → Error → Text
write_error_response status e = error_line status e ++ 13 ∷ 10 ∷ []
