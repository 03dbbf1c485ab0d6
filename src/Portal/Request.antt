-- ===== src/Portal/Request.antt =====
-- portal/portal.go: parseHttpRequest, which makes a request of the Go library out of a message, and
-- BodyReader. ParseHTTPVersion and the package net/url are parameters, `Parsers`.
pub mod Fields
pub mod Transparent
pub mod Malformed
use Prim.Native.String.{◌++◌ as ◌+++◌}
use http_portal.Base.{
  ℕ, String, Bool, true, false, ◌&&◌, Option, none, some, List, [], ◌∷◌, ◌++◌, ◌⊎◌, inl, inr,
  insert, string_eq, text_eq, ◌==◌, if◌then◌else◌, Text, ascii, Header, header_get, has_prefix,
  contains, to_lower, leb, length, take, drop,
}
use http_portal.Core.Errors.{Error, eof, opaque, with_message}
use http_portal.Core.Messages.{HeaderField, HttpRequest}

-- *url.URL: scheme and host, which the program reads and rewrites, and all else.
pub record Url : Type 0 where
  pub scheme : Text
  pub host : Text
  pub rest : Text

-- http.ParseHTTPVersion, url.ParseRequestURI, and the methods RequestURI and String of a URL.
pub record Parsers : Type 0 where
  pub parse_http_version : String → Option (ℕ × ℕ)
  pub parse_request_uri : Text → Error ⊎ Url
  pub request_uri : Url → Text
  pub url_text : Url → Text

-- BodyReader, over the bytes of the message.
unfoldable pub read_body : ℕ → List ℕ → (List ℕ × Option Error) × List ℕ
read_body room [] = if leb room 0 then (([], none), []) else (([], some eof), [])
read_body room (b ∷ bs) = ((take room (b ∷ bs), none), drop room (b ∷ bs))

-- What the model uses of *http.Request.
pub record Request : Type 0 where
  pub method : String
  pub proto : String
  pub proto_major : ℕ
  pub proto_minor : ℕ
  pub header : Header
  pub request_uri : Text
  pub host : Text
  pub remote_addr : String
  pub url : Url
  pub body : List ℕ

-- for _, h := range req.Header { r.Header[h.Key] = h.Value }
unfoldable pub add_fields : List HeaderField → Header → Header
add_fields [] header = header
add_fields (f ∷ fs) header = add_fields fs (insert f.key f.value header)

unfoldable pub is_websocket : String → Header → Bool
is_websocket method header =
    method == "GET"
    && (to_lower (header_get "Upgrade" header) == ascii "websocket"
        && contains (to_lower (header_get "Connection" header)) (ascii "upgrade"))

with_slash : Text → Text
with_slash url = if has_prefix url (ascii "/") then url else 47 ∷ url

-- rawUrl
unfoldable pub raw_url : Bool → HttpRequest → Text
unfolding with_slash
raw_url websocket req =
    (if websocket then ascii "ws" else ascii "http")
    ++ (ascii "://" ++ (req.host ++ with_slash req.url))

-- The request and whether it asks for a websocket, or the error.
pub data Parsed : Type 0 where
  malformed : Error → Parsed
  parsed : Request → Bool → Parsed

with_url : Bool → Header → ℕ × ℕ → Error ⊎ Url → HttpRequest → Parsed
with_url websocket header version (inl e) req = malformed (with_message e "parse uri error")
with_url websocket header (major, minor) (inr url) req =
    parsed
      (record {
        method = req.method;
        proto = req.req_proto;
        proto_major = major;
        proto_minor = minor;
        header = header;
        request_uri = req.url;
        host = req.host;
        remote_addr = req.remote_addr;
        url = url;
        body = req.body;
      })
      websocket

module _ (parsers : Parsers) where
  with_version : Bool → Header → Option (ℕ × ℕ) → HttpRequest → Parsed
  unfolding with_url
  with_version websocket header none req =
      malformed (opaque (req.req_proto +++ " malformed HTTP version"))
  with_version websocket header (some version) req =
      with_url websocket header version (parsers.parse_request_uri (raw_url websocket req)) req

  -- parseHttpRequest
  unfoldable pub parse_http_request : HttpRequest → Parsed
  unfolding with_version
  parse_http_request req =
      let header = add_fields req.header [] in
      with_version (is_websocket req.method header) header
        (parsers.parse_http_version req.req_proto) req
