-- ===== src/Server/Clients.antt =====
-- portal_server/client_manage.go: the connected agents and the manager that knows them by name.
-- A *PortalClient is the number of its connection; `clients` is the heap that holds the objects and
-- `registered` the map of PortalManager. The mutex of the manager makes each of its methods one
-- step, so the model has a method run on the state at once.
pub mod Invariant
pub mod Shutdown
use http_portal.Base.{
  ℕ, ◌*◌, ◌-◌, ◌<◌, ◌≡◌, String, Bool, true, false, Option, none, some, List, [], ◌∷◌, lookup,
  insert, delete, nat_eq, string_eq, if◌then◌else◌, ltb, length,
}
use http_portal.Core.Errors.{Error, opaque, second}
use http_portal.Core.Messages.{RpcHeader, HttpResponse}
use http_portal.Core.Conn.{Conn}
use http_portal.Core.Receiver.{Receiver, new_receiver}

-- What a response channel of the server carries. A handshake message is a copy of the client of the
-- new connection, named here by the connection's number and the request's. The
-- channel has the type interface{}: `foreign_value` is anything else.
pub data Reply : Type 0 where
  rpc_message : RpcHeader → HttpResponse → Reply
  handshake : ℕ → ℕ → Reply
  foreign_value : String → Reply

pub record PortalClient : Type 0 where
  pub receiver : Receiver Reply
  pub conn : Conn
  pub name : String
  pub last_beat : ℕ
  pub online : Bool
  pub is_login : Bool
  pub is_websocket : Bool
  pub websocket_id : ℕ
  pub quit_closed : Bool

pub record State : Type 0 where
  pub clients : List (ℕ × PortalClient)
  pub registered : List (String × ℕ)
  pub watched : List ℕ

-- A method that ends, or panics: close of a closed channel, or a nil pointer.
pub data Step {ℓ} (A : Type ℓ) : Type ℓ where
  done : A → Step A
  panics : String → Step A

unfoldable pub new_portal_client : Conn → ℕ → PortalClient
new_portal_client conn now = record {
  receiver = new_receiver;
  conn = conn;
  name = "";
  last_beat = now;
  online = true;
  is_login = false;
  is_websocket = false;
  websocket_id = 0;
  quit_closed = false;
}

unfoldable pub beat : ℕ → PortalClient → PortalClient
beat now c = record c { last_beat = now; online = true }

unfoldable pub close : PortalClient → Step PortalClient
close c =
    if c.quit_closed
    then panics "close of closed channel"
    else done
        (record c { online = false; quit_closed = true; conn = record c.conn { closed = true } })

abbrev pub put_client : ℕ → PortalClient → State → State
put_client id c s = record s { clients = insert id c s.clients }

-- Add, of a client that is not nil. The goroutine checkOnline is entered in `watched`.
add_named : ℕ → PortalClient → Option ℕ → State → Option Error × State
add_named id c (some other) s = (some (opaque "client name exists"), s)
add_named id c none s = (
  none,
  record s {
    clients = insert id (record c { is_login = true }) s.clients;
    registered = insert c.name id s.registered;
    watched = id ∷ s.watched;
  },
)

unfoldable pub add : ℕ → PortalClient → State → Option Error × State
unfolding add_named
add id c s = add_named id c (lookup c.name s.registered) s

-- ct.Close(); delete(c.clients, name)
drop_client : String → ℕ → Option PortalClient → State → Step State
unfolding close
drop_client name id none s = panics "nil pointer"
drop_client name id (some c) s = elim (close c) [
  | panics p ↦ panics p
  | done c' ↦
      done (record s { clients = insert id c' s.clients; registered = delete name s.registered })
]

remove_found : String → Option ℕ → State → Step State
unfolding drop_client
remove_found name none s = done s
remove_found name (some id) s = drop_client name id (lookup id s.clients) s

unfoldable pub remove : String → State → Step State
unfolding remove_found
remove name s = remove_found name (lookup name s.registered) s

-- Get: nil is none.
unfoldable pub get : String → State → Option ℕ
get name s = lookup name s.registered

unfoldable pub client_num : State → ℕ
client_num s = length s.registered

-- The loop of ClearAll over the entries of the map, each closed and deleted.
clear_from : List (String × ℕ) → State → Step State
unfolding remove
clear_from [] s = done s
clear_from ((name, id) ∷ more) s = elim (remove name s) [
  | panics p ↦ panics p
  | done s' ↦ clear_from more s'
]

unfoldable pub clear_all : State → Step State
unfolding clear_from
clear_all s = clear_from s.registered s

abbrev pub heartbeat_interval : ℕ
heartbeat_interval = 10 * second

-- One round of checkOnline: its ticker has fired, or Quit was closed (`quits`). True means that
-- the goroutine goes on. now.Sub of a later time is negative, so it passes no limit; `-` on ℕ
-- gives 0 there.
check_client : ℕ → ℕ → PortalClient → State → Step (Bool × State)
unfolding remove
check_client now id c s =
    if ltb (4 * heartbeat_interval) (now - c.last_beat)
    then elim (remove c.name s) [ panics p ↦ panics p | done s' ↦ done (false, s') ]
    else if ltb (2 * heartbeat_interval) (now - c.last_beat)
    then done (true, put_client id (record c { online = false }) s)
    else done (true, s)

check_found : Bool → ℕ → ℕ → Option PortalClient → State → Step (Bool × State)
unfolding check_client
check_found true now id c s = done (false, s)
check_found false now id none s = panics "nil pointer"
check_found false now id (some c) s = check_client now id c s

unfoldable pub check_online : Bool → ℕ → ℕ → State → Step (Bool × State)
unfolding check_found
check_online quits now id s = check_found quits now id (lookup id s.clients) s
