-- ===== src/Server/Http.antt =====
-- portal_server/http_server.go: serveHTTP, from a browser's request to the message for the agent and
-- to the answer; with WriteHTTPError of core/net.go.
pub mod Number
pub mod Depth
pub mod Chain
pub mod Report
pub mod Body
use text.Mathlib.Text.{starts_with}
use http_portal.Base.{
  ℕ, zero, suc, ◌+◌, ◌*◌, ◌-◌, ◌/◌, ◌%◌, ◌^◌, ◌≤◌, ◌≡◌, String, Bool, true, false, not, ◌&&◌, ◌||◌,
  Option, none, some, List, [], ◌∷◌, ◌++◌, lookup, string_eq, text_eq, nat_eq, ◌==◌, if◌then◌else◌,
  eqb, ltb, leb, Text, ascii, header_get,
}
use http_portal.Core.Errors.{Error, error_text}
use http_portal.Core.Messages.{HeaderField, HttpRequest}
use http_portal.Core.Wire.{Codec}
use http_portal.Server.Clients.{Reply, Step, done, panics}
use Number.{ℤ, pos, negsuc, atoi, itoa}
use http_portal.Server.Relay.{
  HttpWriter, Forwarded, ProxyServer, Answer, do_request, write_answered,
}

abbrev pub max_portal_deep : ℕ
max_portal_deep = 3

abbrev pub portal_header_prefix : String
portal_header_prefix = "Portal-"

abbrev pub portal_header_deep : String
portal_header_deep = "Portal-Deep"

abbrev pub portal_header_host : String
portal_header_host = "Portal-Host"

unfoldable pub succ : ℤ → ℤ
succ (pos n) = pos (n + 1)
succ (negsuc zero) = pos 0
succ (negsuc (suc n)) = negsuc n

-- deep > MaxPortalDeep
unfoldable pub too_deep : ℤ → Bool
too_deep (pos n) = ltb max_portal_deep n
too_deep (negsuc n) = false

-- What the model uses of *http.Request. `body` is how reading the body ends: none without a body,
-- an error, or its bytes. The keys of `header` are canonical, in the order of the range over it.
pub data BodyRead : Type 0 where
  no_body : BodyRead
  failed : Error → BodyRead
  complete : List ℕ → BodyRead

pub record Request : Type 0 where
  pub method : String
  pub url : Text
  pub proto : String
  pub host : Text
  pub remote_addr : String
  pub header : List (String × List Text)
  pub body : BodyRead

-- req.Host[:pos], up to the first colon.
unfoldable pub without_port : Text → Text
without_port [] = []
without_port (c ∷ s) = let rest = without_port s in if eqb c 58 then [] else c ∷ rest

unfoldable pub is_portal : String → Bool
is_portal key = starts_with key portal_header_prefix

-- The loop over r.Header.
unfoldable pub other_fields : List (String × List Text) → List HeaderField
other_fields [] = []
other_fields ((key, values) ∷ more) =
    if is_portal key
    then other_fields more
    else record { key = key; value = values } ∷ other_fields more

abbrev pub field : String → Text → HeaderField
field key value = record { key = key; value = value ∷ [] }

-- The check of the depth: the request is over the limit, has this depth, or has none that parses.
pub data Level : Type 0 where
  over unknown : Level
  next : ℤ → Level

depth_of : Bool → Option ℤ → Level
depth_of came_from_here none = unknown
depth_of came_from_here (some deep) =
    if too_deep deep || came_from_here then over else next (succ deep)

unfoldable pub depth : Request → Level
unfolding depth_of atoi header_get
depth r =
    let value = header_get portal_header_deep r.header in
    if value == []
    then unknown
    else depth_of (header_get portal_header_host r.header == r.host) (atoi value)

-- The header of the message, behind the check of the depth.
unfoldable pub request_fields : Level → Request → List HeaderField
request_fields (next deep) r =
    field portal_header_deep (itoa deep) ∷ other_fields r.header
    ++ field portal_header_host r.host ∷ []
request_fields _ r =
    other_fields r.header
    ++ field portal_header_deep (itoa (pos 1)) ∷ field portal_header_host r.host ∷ []

-- The message for the agent, or the text of the error.
pub data Prepared : Type 0 where
  refused : String → Prepared
  ready : HttpRequest → Prepared

body_bytes : BodyRead → List ℕ
body_bytes (complete bs) = bs
body_bytes _ = []

unfoldable pub as_message : Level → Request → HttpRequest
unfolding request_fields body_bytes
as_message d r = record {
  method = r.method;
  url = r.url;
  req_proto = r.proto;
  header = request_fields d r;
  body = body_bytes r.body;
  host = without_port r.host;
  remote_addr = r.remote_addr;
}

check_depth : Level → Request → Prepared
unfolding as_message
check_depth over r = refused "over max portal deep"
check_depth d r = ready (as_message d r)

prepare_body : BodyRead → Request → Prepared
unfolding check_depth depth
prepare_body (failed e) r = refused "body error"
prepare_body _ r = check_depth (depth r) r

unfoldable pub prepare : Request → Prepared
unfolding prepare_body
prepare r = prepare_body r.body r

-- header.Set
set_line : String → Text → List (String × Text) → List (String × Text)
set_line key value [] = (key, value) ∷ []
set_line key value ((k, v) ∷ more) =
    let rest = set_line key value more in if k == key then rest else (k, v) ∷ rest

-- WriteHTTPError. Once the status has been written, WriteHeader and the header's lines change nothing.
unfoldable pub write_http_error : String → ℕ → HttpWriter → Option Error × HttpWriter
unfolding set_line write_answered
write_http_error msg code w =
    let lines =
      set_line "X-Content-Type-Options" (ascii "nosniff")
        (set_line "Content-Type" (ascii "text/plain; charset=utf-8") w.added) in
    let w' : HttpWriter = elim w.status [
      | none ↦ record w { added = lines; status = some code }
      | some c ↦ w
    ] in
    write_answered w'.answers (ascii msg ++ 10 ∷ []) w'

-- The error that serveHTTP returns, what was written, and the server.
pub record Served : Type 0 where
  pub error : Option Error
  pub writer : HttpWriter
  pub server : ProxyServer

reply_error : Option Error → ℕ → HttpWriter → ProxyServer → Served
unfolding write_http_error
reply_error none code w s = record { error = none; writer = w; server = s }
reply_error (some e) code w s =
    let (x, w') = write_http_error (error_text e) code w in
    record { error = x; writer = w'; server = s }

module _ (codec : Codec) (transport : ℕ → HttpWriter → Forwarded) (now : ℕ)
    (timeout : Option ℕ) where
  serve_prepared : Prepared → List Reply → HttpWriter → ProxyServer → Step Served
  unfolding reply_error
  serve_prepared (refused msg) replies w s =
      let (x, w') = write_http_error msg 500 w in
      done (record { error = x; writer = w'; server = s })
  serve_prepared (ready req) replies w s =
      elim (do_request codec transport now timeout req replies w s) [
        | panics p ↦ panics p
        | done a ↦ done (reply_error a.error a.code a.writer a.server)
      ]

  -- serveHTTP
  unfoldable pub serve_http : Request → List Reply → HttpWriter → ProxyServer → Step Served
  unfolding serve_prepared
  serve_http r replies w s = serve_prepared (prepare r) replies w s
