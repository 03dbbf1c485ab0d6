-- ===== src/Server/Relay/Passed.antt =====
-- portal_server/proxy_server.go: DoRequest where the Send succeeds.
use http_portal.Base.{ℕ, ◌≡◌, refl, String, Option, true, none, some, List, lookup, nat_eq, text_eq}
use http_portal.Core.Messages.{HttpRequest, http_request, method_http_do}
use http_portal.Core.Conn.{ok}
use http_portal.Core.Wire.{Codec, send}
use http_portal.Core.Receiver.{prepare_request}
use http_portal.Server.Clients.{PortalClient, Reply, done, get}
use http_portal.Server.Relay.{
  HttpWriter, Forwarded, forward, ProxyServer, Answer, ask_name, ask_client, after_send, do_request,
}

module _ (codec : Codec) (transport : ℕ → HttpWriter → Forwarded) (now : ℕ)
    (timeout : Option ℕ) where
  -- It ends with what its loop makes of the replies.
  pub do_request-forward :
      (q : HttpRequest) (name : String) (id : ℕ) (c : PortalClient) (replies : List Reply)
      (w : HttpWriter) (s : ProxyServer)
      → lookup q.host s.hosts ≡ some name
      → get name s.clients ≡ some id
      → lookup id s.clients.clients ≡ some c
      → let seq = (prepare_request c.receiver).0 in
        (send codec timeout
            (record { method = method_http_do; error = ""; seq = seq })
            (some (http_request q))
            c.conn).0
          ≡ ok tt
        → (forward transport true replies w).error ≡ none
        → (a : Answer) × (do_request codec transport now timeout q replies w s ≡ done a)
          × (a.error ≡ none)
          × (a.writer ≡ (forward transport true replies w).writer)
  unfolding do_request prepare_request
  do_request-forward q name id c replies w s host named found sent fine =
      rw (host, ask_name, named, found, ask_client, sent, after_send, fine) (_, refl, refl, refl)
