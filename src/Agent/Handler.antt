-- ===== src/Agent/Handler.antt =====
-- portal_agent/handler.go: RequestHandler, which sends a request on to the service behind the agent;
-- with WriteHTTPError of core/net.go, on the agent's own writer.
-- What http.NewRequest and Client.Do do is a parameter. A URL is that of Portal.Request.
pub mod Copies
pub mod Answers
use http_portal.Base.{
  ℕ, String, Bool, true, false, Option, none, some, List, [], ◌∷◌, ◌++◌, lookup, string_eq, text_eq,
  ◌==◌, if◌then◌else◌, Text, ascii, Header, header_get, header_add, header_set, replace_first,
}
use http_portal.Core.Errors.{Error, error_text}
use http_portal.Core.Conn.{Outcome, ok, err, panic}
use http_portal.Portal.Writer.{Writer, IoResult, Reader, write_header, write, read_from}
use http_portal.Portal.Request.{Url, Parsers, Request}
use http_portal.Server.Http.{portal_header_host}

-- getRewriteUrl
unfoldable pub get_rewrite_url : List (Text × Text) → Url → Url
get_rewrite_url host_rewrite url = elim (lookup url.host host_rewrite) [
  | some v ↦ record url { host = v }
  | none ↦ url
]

-- The request that goes out, what comes back, and how Client.Do fails: whether by a timeout.
pub record Outgoing : Type 0 where
  pub method : String
  pub url : Text
  pub header : Header
  pub body : List ℕ

pub record Response : Type 0 where
  pub status_code : ℕ
  pub header : Header
  pub body : Reader

pub data Done : Type 0 where
  failed : Error → Bool → Done
  received : Response → Done

-- for _, v := range arr { h.Add(k, v) }
unfoldable pub add_values : String → List Text → Header → Header
add_values k [] h = h
add_values k (v ∷ vs) h = add_values k vs (header_add k v h)

-- for k, arr := range from { … }
unfoldable pub add_all : Header → Header → Header
unfolding add_values
add_all [] h = h
add_all ((k, arr) ∷ more) h = add_all more (add_values k arr h)

-- WriteHTTPError on the agent's writer: what Fprintln returned, and the writer.
write_error : IoResult → Outcome (Option Error) × Writer
write_error (ok (n, e), w) = (ok e, w)
write_error (err e, w) = (err e, w)
write_error (panic p, w) = (panic p, w)

unfoldable pub write_http_error : Text → ℕ → Writer → Outcome (Option Error) × Writer
unfolding write_error
write_http_error msg code w =
    let lines =
      header_set "X-Content-Type-Options" (ascii "nosniff")
        (header_set "Content-Type" (ascii "text/plain; charset=utf-8") w.header) in
    write_error (write (msg ++ 10 ∷ []) (write_header code (record w { header = lines })))

-- The replaced Location.
unfoldable pub location_back : Text → Text → Header → Header
location_back new_host portal_host header =
    let v = header_get "Location" header in
    if v == [] then header else header_set "Location" (replace_first v new_host portal_host) header

-- What of the response is in the writer before its body is copied.
unfoldable pub begin_response : Text → Text → Response → Writer → Writer
unfolding location_back
begin_response new_host portal_host resp w =
    write_header resp.status_code
      (record w { header = add_all (location_back new_host portal_host resp.header) w.header })

-- What ReadFrom returns, as serveHTTP does; none, where its model runs out of fuel.
copied : Option IoResult → Option (Outcome (Option Error) × Writer)
unfolding write_error
copied none = none
copied (some r) = some (write_error r)

module _ (parsers : Parsers) (host_rewrite : List (Text × Text))
    (new_request : String → Text → Option Error) (client_do : Outgoing → Done) where
  -- The request for the service.
  unfoldable pub outgoing : Request → Outgoing
  outgoing r = record {
    method = r.method;
    url = parsers.url_text (get_rewrite_url host_rewrite r.url);
    header = add_all r.header [];
    body = r.body;
  }

  respond : Request → Done → Writer → Option (Outcome (Option Error) × Writer)
  unfolding copied
  respond r (failed e timed_out) w =
      some (write_http_error (ascii (error_text e)) (if timed_out then 504 else 502) w)
  respond r (received resp) w = copied (
      read_from resp.body (
        begin_response (get_rewrite_url host_rewrite r.url).host
          (header_get portal_header_host r.header) resp w))

  with_new_request : Request → Option Error → Writer → Option (Outcome (Option Error) × Writer)
  unfolding respond
  with_new_request r (some e) w = some (write_http_error (ascii (error_text e)) 500 w)
  with_new_request r none w = respond r (client_do (outgoing r)) w

  -- serveHTTP, of a writer that is a *portal.HttpResponseWriter.
  unfoldable pub serve_http : Request → Writer → Option (Outcome (Option Error) × Writer)
  unfolding with_new_request
  serve_http r w = with_new_request r (new_request r.method (outgoing r).url) w

  -- An error is only logged. That the model runs out of fuel counts as a panic.
  logged : Writer → Option (Outcome (Option Error) × Writer) → Outcome Writer
  logged w none = panic "out of fuel"
  logged w (some (panic p, w')) = panic p
  logged w (some (_, w')) = ok w'

  -- ServeHTTP
  unfoldable pub serve : Request → Writer → Outcome Writer
  unfolding logged
  serve r w = logged w (serve_http r w)
