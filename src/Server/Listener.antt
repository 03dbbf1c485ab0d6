-- ===== src/Server/Listener.antt =====
-- portal_server/proxy_server.go: NewProxyServer, Start, Stop, listen and accept, the goroutine that
-- takes the connections of the agents. Each goroutine keepConnection that it starts is that of
-- Server.Connection, for a client that is entered in the heap under a new number.
pub mod Accepted
use http_portal.Base.{
  ℕ, zero, suc, ◌+◌, ◌⊎◌, inl, inr, String, Bool, true, false, Option, none, some, List, [], ◌∷◌,
  insert, nat_eq, if◌then◌else◌, leb,
}
use http_portal.Core.Errors.{Error, is_temporary, calc_delay}
use http_portal.Core.Conn.{Conn}
use http_portal.Server.Clients.{
  PortalClient, State, Step, done, panics, new_portal_client, put_client, clear_all,
}
use http_portal.Server.Relay.{ProxyServer}

-- NewProxyServer
unfoldable pub new_proxy_server : ProxyServer
new_proxy_server = record {
  clients = record { clients = []; registered = []; watched = [] };
  hosts = [];
}

-- A number above all that are taken.
unfoldable pub new_number : List (ℕ × PortalClient) → ℕ
new_number [] = 0
new_number ((id, c) ∷ more) =
    let rest = new_number more in if leb (id + 1) rest then rest else id + 1

-- handleRawConn: a nil connection is noticed by its goroutine, in the first Receive.
unfoldable pub handle_raw_conn : Option Conn → ℕ → State → Step State
handle_raw_conn none now s = panics "nil pointer"
handle_raw_conn (some conn) now s =
    done (put_client (new_number s.clients) (new_portal_client conn now) s)

-- What a round of accept meets: the clock, the result of Accept, isStop(s.ctx), and the error of
-- listen, if it is called.
pub record Turn : Type 0 where
  pub now : ℕ
  pub accept : Error ⊎ Conn
  pub stopped : Bool
  pub listen : Option Error

-- accept goes on, with a tempDelay, or returns; or the process panics.
pub data Accepting : Type 0 where
  serving : ℕ → State → Accepting
  returned : State → Accepting
  crashed : String → Accepting

handled : Step State → Accepting
handled (panics p) = crashed p
handled (done s) = serving 0 s

-- err = s.listen(), and what is behind the if.
relisten : Option Error → ℕ → State → Accepting
unfolding handled
relisten (some e) now s = returned s
relisten none now s = handled (handle_raw_conn none now s)

-- One round of the loop of accept.
unfoldable pub accept_round : Error ⊎ Conn → Turn → ℕ → State → Accepting
unfolding handled relisten
accept_round (inr conn) t delay s = handled (handle_raw_conn (some conn) t.now s)
accept_round (inl e) t delay s =
    if is_temporary e
    then serving (calc_delay delay) s
    else if t.stopped
    then returned s
    else relisten t.listen t.now s

-- accept over the rounds that there are.
unfoldable pub accept : List Turn → ℕ → State → Accepting
accept [] delay s = serving delay s
accept (t ∷ more) delay s = elim (accept_round t.accept t delay s) [
  | serving delay' s' ↦ accept more delay' s'
  | returned s' ↦ returned s'
  | crashed p ↦ crashed p
]

-- Start: an error of listen, or the goroutine accept, over these rounds.
unfoldable pub start : Option Error → List Turn → State → Error ⊎ Accepting
start (some e) turns s = inl e
start none turns s = inr (accept turns 0 s)

-- Stop, of what the server keeps.
unfoldable pub stop : State → Step State
stop s = clear_all s
