-- ===== src/Server/Relay.antt =====
-- portal_server/proxy_server.go: ProxyServer and DoRequest, the way of one HTTP request to an agent
-- and of the response back.
pub mod Response
pub mod Failures
pub mod Cleanup
pub mod Schedule
pub mod Passed
pub mod Hosts
use http_portal.Base.{
  ℕ, ◌+◌, ◌<◌, String, Bool, true, false, not, Option, none, some, List, [], ◌∷◌, ◌++◌, map, length,
  lookup, insert, nat_eq, string_eq, text_eq, ◌==◌, if◌then◌else◌, eqb, Text,
}
use http_portal.Core.Errors.{Error, opaque}
use http_portal.Core.Messages.{
  HeaderField, HttpRequest, HttpResponse, RpcHeader, http_request, method_http_do,
}
use http_portal.Core.Conn.{Conn, Outcome, ok, err, panic}
use http_portal.Core.Wire.{Codec, send}
use http_portal.Core.Receiver.{prepare_request, delete_seq}
use http_portal.Server.Clients.{
  Reply, rpc_message, handshake, foreign_value, PortalClient, State, Step, done, panics, get,
  put_client, beat,
}

-- The http.ResponseWriter of the browser's request: the header lines added so far, the status once
-- written, the body. `answers` scripts the calls of Write, which succeed when the script is over.
pub record HttpWriter : Type 0 where
  pub added : List (String × Text)
  pub status : Option ℕ
  pub body : List ℕ
  pub answers : List (Option Error)

abbrev pub lines_of : HeaderField → List (String × Text)
lines_of f = map (λ v. (f.key, v)) f.value

abbrev pub all_lines : List HeaderField → List (String × Text)
all_lines [] = []
all_lines (f ∷ fs) = lines_of f ++ all_lines fs

unfoldable pub write_answered :
    List (Option Error) → List ℕ → HttpWriter → Option Error × HttpWriter
write_answered [] bytes w = (none, record w { body = w.body ++ bytes })
write_answered (none ∷ more) bytes w = (none, record w { body = w.body ++ bytes; answers = more })
write_answered (some e ∷ more) bytes w = (some e, record w { answers = more })

-- header.Add for each value, then WriteHeader.
abbrev begin : HttpResponse → HttpWriter → HttpWriter
begin resp w = record w { added = w.added ++ all_lines resp.header; status = some resp.status }

-- What the loop of DoRequest writes for one response message.
unfoldable pub write_part : Bool → HttpResponse → HttpWriter → Option Error × HttpWriter
unfolding write_answered
write_part first resp w =
    let w' = if first then begin resp w else w in
    if eqb (length resp.body) 0 then (none, w') else write_answered w'.answers resp.body w'

-- How DoRequest returns, what it has written, and how often it has called client.Beat.
pub record Forwarded : Type 0 where
  pub code : ℕ
  pub error : Option Error
  pub writer : HttpWriter
  pub beats : ℕ

abbrev one_more_beat : Forwarded → Forwarded
one_more_beat f = record f { beats = f.beats + 1 }

-- The loop of DoRequest over what respCh gives. At the end of the list nothing more comes, and the
-- context of the receive is done. `transport` is transportDirect, which takes the connection over.
unfoldable pub forward : (ℕ → HttpWriter → Forwarded) → Bool → List Reply → HttpWriter → Forwarded
forward transport true [] w = record {
  code = 504;
  error = some (opaque "receive resp timeout");
  writer = w;
  beats = 0;
}
forward transport false [] w = record { code = 504; error = none; writer = w; beats = 0 }
forward transport first (handshake id seq ∷ more) w = transport id w
forward transport first (foreign_value type ∷ more) w = record {
  code = 500;
  error = some (opaque "response invalid");
  writer = w;
  beats = 0;
}
forward transport first (rpc_message header resp ∷ more) w =
    let (e, w') = write_part first resp w in
    let rest = forward transport false more w' in
    if not (header.error == "")
    then record { code = 502; error = some (opaque header.error); writer = w; beats = 0 }
    else elim e [
      | some x ↦ record { code = 500; error = none; writer = w'; beats = 0 }
      | none ↦
          if not resp.not_finish
          then record { code = 200; error = none; writer = w'; beats = 1 }
          else one_more_beat rest
    ]

pub record ProxyServer : Type 0 where
  pub clients : State
  pub hosts : List (Text × String)

-- SetHosts over the entries of the configuration, in the order in which the range gives them.
set_hosts_of : String → List Text → List (Text × String) → List (Text × String)
set_hosts_of name [] hosts = hosts
set_hosts_of name (host ∷ more) hosts = set_hosts_of name more (insert host name hosts)

set_hosts_from : List (String × List Text) → List (Text × String) → List (Text × String)
set_hosts_from [] hosts = hosts
set_hosts_from ((name, arr) ∷ more) hosts = set_hosts_from more (set_hosts_of name arr hosts)

unfoldable pub set_hosts : List (String × List Text) → ProxyServer → ProxyServer
unfolding set_hosts_from set_hosts_of
set_hosts config s = record s { hosts = set_hosts_from config s.hosts }

-- The result of DoRequest, the writer and the server behind it.
pub record Answer : Type 0 where
  pub code : ℕ
  pub error : Option Error
  pub writer : HttpWriter
  pub server : ProxyServer

abbrev refuse : ℕ → String → HttpWriter → ProxyServer → Answer
refuse code msg w s = record { code = code; error = some (opaque msg); writer = w; server = s }

abbrev store : ℕ → PortalClient → ProxyServer → ProxyServer
store id c s = record s { clients = put_client id c s.clients }

-- client.Beat(), where the loop has called it at all.
beaten : ℕ → ℕ → PortalClient → PortalClient
beaten now n c = if eqb n 0 then c else beat now c

module _ (codec : Codec) (transport : ℕ → HttpWriter → Forwarded) (now : ℕ)
    (timeout : Option ℕ) where
  -- DoRequest behind client.Send. The deferred DeleteSeq is on every path.
  after_send :
      ℕ
      → ℕ
      → PortalClient
      → Outcome (Unit {0}) × Conn
      → List Reply
      → HttpWriter
      → ProxyServer
      → Step Answer
  unfolding beaten beat
  after_send id seq c (ok u, conn) replies w s =
      let f = forward transport true replies w in
      let c' =
        beaten now f.beats (record c { conn = conn; receiver = delete_seq seq c.receiver }) in
      done (record { code = f.code; error = f.error; writer = f.writer; server = store id c' s })
  after_send id seq c (err e, conn) replies w s = done (
      refuse 500 "request error" w
        (store id (record c { conn = conn; receiver = delete_seq seq c.receiver }) s))
  after_send id seq c (panic p, conn) replies w s = panics p

  -- DoRequest with the client that it found.
  ask_client :
      ℕ → Option PortalClient → HttpRequest → List Reply → HttpWriter → ProxyServer → Step Answer
  unfolding after_send
  ask_client id none req replies w s = panics "nil pointer"
  ask_client id (some c) req replies w s =
      let (seq, receiver) = prepare_request c.receiver in
      let header : RpcHeader = record { method = method_http_do; error = ""; seq = seq } in
      after_send id seq (record c { receiver = receiver })
        (send codec timeout header (some (http_request req)) c.conn) replies w s

  ask_name : Option String → HttpRequest → List Reply → HttpWriter → ProxyServer → Step Answer
  unfolding ask_client
  ask_name none req replies w s = done (refuse 404 "not found" w s)
  ask_name (some name) req replies w s = elim (get name s.clients) [
    | none ↦ done (refuse 404 "client not found" w s)
    | some id ↦ ask_client id (lookup id s.clients.clients) req replies w s
  ]

  -- DoRequest. `replies` is what its channel gives until the loop returns; what other goroutines do
  -- to the server meanwhile is not part of it.
  unfoldable pub do_request : HttpRequest → List Reply → HttpWriter → ProxyServer → Step Answer
  unfolding ask_name
  do_request req replies w s = ask_name (lookup req.host s.hosts) req replies w s
