-- ===== src/Tests/Relay.antt =====
-- portal_server/proxy_server.go: DoRequest at concrete inputs.
use mathlib.Core.Logic.Or
use mathlib.Core.Bool.{Bool-set}
use mathlib.Core.List.{mem-cons, not-mem-nil}
use mathlib.Core.List.Perm
use http_portal.Base.{
  ap, sym, ◌∙◌, ◌==◌, Text, ℕ, ◌≡◌, ◌≢◌, refl, String, true, false, none, some, List, [], ◌∷◌, ◌++◌,
  map, lookup, nat_eq, string_eq, text_eq, arith, Text, ascii, ◌*◌, insert, same_text,
}
use http_portal.Core.Errors.{second}
use http_portal.Core.Messages.{HttpRequest, HttpResponse, RpcHeader, http_request}
use http_portal.Core.Conn.{ok, panic, write}
use http_portal.Core.Wire.{Codec, send}
use http_portal.Portal.Writer.{Reader, piece, to_field}
use http_portal.Portal.Writer.Stream.{IsResponse}
use http_portal.Server.Clients.{done, get}
use http_portal.Server.Relay.{
  HttpWriter, Forwarded, forward, ProxyServer, Answer, set_hosts, do_request, all_lines, write_part,
}
use http_portal.Server.Relay.Response.{as_replies}
use http_portal.Server.Relay.Hosts.{member, OnlyUnder, set_hosts-perm}
use http_portal.Server.Relay.Cleanup.{OnlyClient, do_request_cleans_up}
use http_portal.Server.Relay.Schedule.{run, busy, too_early, run-too_early}
use http_portal.Tests.Codec.{small_codec}
use http_portal.Tests.Clients.{home, two_clients}

abbrev http_header : RpcHeader
http_header = record { method = "RESP_http"; error = ""; seq = 6 }

abbrev page_header : List (String × List Text)
page_header = ("Content-Type", ascii "text/plain" ∷ []) ∷ []

abbrev page_reader : Reader
page_reader = piece (1 ∷ 2 ∷ 3 ∷ []) none ∷ piece (4 ∷ 5 ∷ []) none ∷ []

-- A response in three messages.
abbrev part1 : HttpResponse
part1 = record {
  status = 404;
  header = map to_field page_header;
  body = 1 ∷ 2 ∷ [];
  not_finish = true;
}

abbrev part2 : HttpResponse
part2 = record { status = 0; header = []; body = 3 ∷ 4 ∷ []; not_finish = true }

abbrev part3 : HttpResponse
part3 = record { status = 0; header = []; body = 5 ∷ []; not_finish = false }

abbrev parts : List HttpResponse
parts = part1 ∷ part2 ∷ part3 ∷ []

abbrev browser : HttpWriter
browser = record { added = []; status = none; body = []; answers = [] }

-- transportDirect, for these runs: the browser's connection is taken over and nothing is written.
abbrev taken_over : ℕ → HttpWriter → Forwarded
taken_over id w = record { code = 200; error = none; writer = w; beats = 0 }

abbrev page_request : HttpRequest
page_request = record {
  method = "GET";
  url = ascii "/";
  req_proto = "HTTP/1.1";
  header = [];
  body = [];
  host = ascii "a.b";
  remote_addr = "";
}

abbrev server : ProxyServer
server = record {
  clients = two_clients;
  hosts = (ascii "a.b", "home") ∷ (ascii "c.d", "office") ∷ [];
}

-- A codec that marshals every message to the same bytes.
abbrev one_byte : Codec
one_byte = record small_codec { marshal_header = λ h. ok (1 ∷ []); marshal = λ m. ok (2 ∷ []) }

forward_run :
    let f = forward taken_over true (as_replies http_header parts) browser in
    (f.code ≡ 200)
    × (f.writer.body ≡ 1 ∷ 2 ∷ 3 ∷ 4 ∷ 5 ∷ [])
    × (f.writer.status ≡ some 404)
    × (f.beats ≡ 3)
unfolding forward write_part
forward_run = (refl, refl, refl, refl)

set_hosts_run :
    (set_hosts
      (("home", ascii "a.b" ∷ ascii "c.d" ∷ []) ∷ [])
      (record { clients = two_clients; hosts = [] })).hosts
    ≡ (ascii "a.b", "home") ∷ (ascii "c.d", "home") ∷ []
unfolding set_hosts insert same_text
set_hosts_run = refl

abbrev home_entry : String × List Text
home_entry = ("home", ascii "a.b" ∷ ascii "c.d" ∷ [])

abbrev office_entry : String × List Text
office_entry = ("office", ascii "e.f" ∷ [])

home-OnlyUnder : OnlyUnder "home" (ascii "c.d") (home_entry ∷ office_entry ∷ [])
unfolding same_text
home-OnlyUnder entry m lists =
    Or.elim (Bool-set _ _) (mem-cons.0 m) (λ e. ap (λ (x : String × List Text). x.0 == "home") e)
      (λ later.
        Or.elim (Bool-set _ _) (mem-cons.0 later) (λ e. let no = elsewhere e in cc)
          (λ nothing. elim (not-mem-nil nothing) [ ]))
  where
    elsewhere : entry ≡ office_entry → false ≡ true
    elsewhere e = ap (λ (x : String × List Text). member (ascii "c.d") x.1) (sym e) ∙ lists

set_hosts-perm_example :
    let s : ProxyServer = record { clients = two_clients; hosts = [] } in
    (lookup (ascii "c.d") (set_hosts (home_entry ∷ office_entry ∷ []) s).hosts ≡ some "home")
    × (lookup (ascii "c.d") (set_hosts (office_entry ∷ home_entry ∷ []) s).hosts
        ≡ lookup (ascii "c.d") (set_hosts (home_entry ∷ office_entry ∷ []) s).hosts)
unfolding same_text
set_hosts-perm_example =
    set_hosts-perm "home" (ascii "c.d") (home_entry ∷ office_entry ∷ [])
      (office_entry ∷ home_entry ∷ []) (record { clients = two_clients; hosts = [] })
      (Perm.swap office_entry home_entry []) home-OnlyUnder

parts-IsResponse : IsResponse 404 page_header parts
parts-IsResponse = (
  record { status_sent = refl; header_sent = refl; finish_flag = refl },
  (
    record { no_status = refl; no_header = refl; finish_flag = refl },
    record { no_status = refl; no_header = refl; finish_flag = refl },
  ),
)

run-too_early_example :
    run (too_early http_header part1 part2 part3) (busy true true browser)
    ≡ busy false false (record browser {
      added = [] ++ all_lines part1.header;
      status = some 404;
      body = [] ++ (1 ∷ 2 ∷ []) ++ 5 ∷ [];
    })
run-too_early_example = run-too_early http_header part1 part2 part3 browser refl refl refl refl

send_calm :
    (h : RpcHeader) (p : String)
    → (send one_byte none h (some (http_request page_request)) home.conn).0 ≢ panic p
unfolding send write
send_calm h p q = ground arith

do_request_cleans_up_example :
    (a : Answer) × (do_request one_byte taken_over
        (3 * second)
        none
        page_request
        (as_replies http_header parts)
        browser
        server
      ≡ done a)
    × OnlyClient one_byte taken_over (3 * second) none 1 home server a.server
unfolding lookup get same_text
do_request_cleans_up_example =
    do_request_cleans_up one_byte taken_over (3 * second) none page_request
      (as_replies http_header parts) browser server "home" 1 home refl refl refl send_calm
