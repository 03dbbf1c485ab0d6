-- ===== src/Tests/Http.antt =====
-- portal_server/http_server.go: serveHTTP at concrete inputs.
use http_portal.Base.{
  header_get, ℕ, ◌≡◌, refl, String, none, some, List, [], ◌∷◌, ◌++◌, lookup, string_eq, text_eq,
  arith, Text, length, ◌<◌, ◌≤◌, ◌⊎◌, ascii, same_text,
}
use http_portal.Core.Errors.{error_text, opaque, Error}
use http_portal.Core.Messages.{HttpRequest}
use http_portal.Server.Clients.{done}
use http_portal.Server.Relay.{HttpWriter, do_request, Forwarded, ProxyServer}
use http_portal.Server.Http.Number.{pos, negsuc, atoi, itoa}
use http_portal.Server.Http.{
  succ, too_deep, Request, Served, complete, BodyRead, failed, is_portal, field, refused, ready,
  prepare, without_port, other_fields, depth, as_message, serve_http, write_http_error,
  request_fields,
}
use http_portal.Server.Http.Depth.{Marked, Stopped, prepare_cases}
use http_portal.Server.Http.Report.{serve_http-do_request}
use http_portal.Server.Http.Chain.{travel, travel_refused}
use http_portal.Core.Conn.{ok}
use http_portal.Portal.Writer.{Reader, piece}
use http_portal.Portal.Writer.Stream.{bytes_of, error_of}
use http_portal.Server.Http.Body.{
  read_body, read_all, buffer_read_from, recovered, buffer_too_large, read_body_cases,
}
use http_portal.Tests.Codec.{small_codec}
use http_portal.Tests.Clients.{two_clients}

abbrev pub visit : Request
visit = record {
  method = "GET";
  url = ascii "/a";
  proto = "HTTP/1.1";
  host = ascii "a.b:80";
  remote_addr = "";
  header =
      ("Accept", ascii "*" ∷ [])
      ∷ ("Portal-Deep", ascii "2" ∷ [])
      ∷ ("Portal-Key", ascii "x" ∷ [])
      ∷ [];
  body = complete [];
}

abbrev pub visit_message : HttpRequest
visit_message = record {
  method = "GET";
  url = ascii "/a";
  req_proto = "HTTP/1.1";
  header =
      field "Portal-Deep" (ascii "3")
      ∷ field "Accept" (ascii "*")
      ∷ field "Portal-Host" (ascii "a.b:80")
      ∷ [];
  body = [];
  host = ascii "a.b";
  remote_addr = "";
}

atoi_run :
    (atoi (ascii "-17") ≡ some (negsuc 16)) × (atoi (ascii "1x") ≡ none) × (atoi (ascii "+") ≡ none)
unfolding atoi
atoi_run = (refl, refl, refl)

itoa_run : (itoa (negsuc 16) ≡ ascii "-17") × (itoa (pos 1024) ≡ ascii "1024")
unfolding itoa
itoa_run = (refl, refl)

pub prepare_run : prepare visit ≡ ready visit_message
unfolding prepare atoi itoa succ too_deep header_get is_portal without_port other_fields depth
    as_message request_fields lookup same_text
prepare_run = refl

-- A host that is not configured: the text of the error, with status 404.
serve_http_run :
    (w : HttpWriter) × (serve_http small_codec
        (λ id w. record { code = 200; error = none; writer = w; beats = 0 })
        0
        none
        visit
        []
        (record { added = []; status = none; body = []; answers = [] })
        (record { clients = two_clients; hosts = [] })
      ≡ done (record {
        error = none;
        writer = w;
        server = record { clients = two_clients; hosts = [] };
      }))
    × (w.status ≡ some 404)
    × (w.body ≡ ascii "not found" ++ 10 ∷ [])
unfolding serve_http prepare atoi itoa succ too_deep header_get is_portal without_port other_fields
    depth as_message request_fields lookup same_text do_request write_http_error error_text
serve_http_run = (_, refl, refl, refl)

prepare_cases_example :
    ((q : HttpRequest) × (prepare visit ≡ ready q) × Marked visit q.header)
    ⊎ (prepare visit ≡ refused "over max portal deep") × Stopped visit
prepare_cases_example = prepare_cases visit (λ e p. cc)

abbrev first_visit : Request
first_visit = record visit { header = ("Accept", ascii "*" ∷ []) ∷ [] }

abbrev four_hosts : List Text
four_hosts = ascii "c.d" ∷ ascii "e.f" ∷ ascii "g.h" ∷ ascii "i.j" ∷ []

travel_refused_example : (m : String) × (travel (prepare first_visit) four_hosts ≡ refused m)
unfolding atoi header_get lookup
travel_refused_example = travel_refused first_visit four_hosts refl (omega arith)

abbrev taken_over : ℕ → HttpWriter → Forwarded
taken_over id w = record { code = 200; error = none; writer = w; beats = 0 }

abbrev browser : HttpWriter
browser = record { added = []; status = none; body = []; answers = [] }

abbrev no_hosts : ProxyServer
no_hosts = record { clients = two_clients; hosts = [] }

serve_http-do_request_example :
    (out : Served) × (serve_http small_codec taken_over 0 none visit [] browser no_hosts ≡ done out)
    × (out.error ≡ none)
    × (out.server ≡ no_hosts)
    × (out.writer.body ≡ [] ++ (ascii (error_text (opaque "not found")) ++ 10 ∷ []))
    × (browser.status ≡ none → out.writer.status ≡ some 404)
    × ((c : ℕ) → browser.status ≡ some c → out.writer.status ≡ some c)
unfolding do_request lookup
serve_http-do_request_example =
    serve_http-do_request small_codec taken_over 0 none visit visit_message [] browser no_hosts
      (record {
        code = 404;
        error = some (opaque "not found");
        writer = browser;
        server = no_hosts;
      })
      (opaque "not found") prepare_run refl refl refl

-- A body of five bytes, cut off by an error, and a buffer that holds eight.
abbrev cut_body : Reader
cut_body = piece (1 ∷ 2 ∷ 3 ∷ []) none ∷ piece (4 ∷ 5 ∷ []) (some (opaque "reset")) ∷ []

abbrev posted : BodyRead → Request
posted b = record visit { body = b }

abbrev nothing_written : HttpWriter
nothing_written = record { added = []; status = none; body = []; answers = [] }

abbrev gone : ℕ → HttpWriter → Forwarded
gone id w = record { code = 200; error = none; writer = w; beats = 0 }

read_body_cases_example :
    ((read_body 8 (some cut_body) ≡ ok (complete (bytes_of cut_body)))
      × (error_of cut_body ≡ none)
      × (length (bytes_of cut_body) ≤ 8))
    ⊎ ((e : Error) × (read_body 8 (some cut_body) ≡ ok (failed e))
        × (((x : Error) × (error_of cut_body ≡ some x)) ⊎ (8 < length (bytes_of cut_body)))
        × ((out : Served) × (serve_http small_codec gone 0 none
                (posted (failed e))
                []
                nothing_written
                no_hosts
              ≡ done out)
            × (out.error ≡ none)
            × (out.server ≡ no_hosts)
            × (out.writer.body ≡ [] ++ (ascii "body error" ++ 10 ∷ []))
            × (out.writer.status ≡ some 500)))
read_body_cases_example =
    read_body_cases 8 cut_body small_codec gone 0 none posted [] nothing_written no_hosts
      (λ b. refl) refl refl

-- The error comes, and what came before it is not used.
read_body_run : read_body 8 (some cut_body) ≡ ok (failed (opaque "reset"))
unfolding read_body read_all buffer_read_from recovered
read_body_run = refl

-- A body that fits, and one that does not.
read_body_fits :
    (read_body 3 (some (piece (1 ∷ 2 ∷ 3 ∷ []) none ∷ [])) ≡ ok (complete (1 ∷ 2 ∷ 3 ∷ [])))
    × (read_body 2 (some (piece (1 ∷ 2 ∷ 3 ∷ []) none ∷ [])) ≡ ok (failed buffer_too_large))
unfolding read_body read_all buffer_read_from recovered
read_body_fits = (refl, refl)
