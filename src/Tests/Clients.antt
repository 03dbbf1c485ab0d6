-- ===== src/Tests/Clients.antt =====
-- portal_server/client_manage.go: PortalManager at concrete inputs.
use http_portal.Base.{
  ℕ, ◌*◌, ◌-◌, ◌<◌, ◌≤◌, ◌≡◌, refl, ◌⊎◌, String, true, false, none, some, [], ◌∷◌, lookup, insert,
  delete, nat_eq, string_eq, ◌==◌, arith,
}
use text.Mathlib.TextEquality.{eq_iff}
use http_portal.Core.Errors.{second}
use http_portal.Core.Conn.{Conn}
use http_portal.Core.Receiver.{waiting, new_receiver}
use http_portal.Server.Clients.{
  PortalClient, State, done, remove, clear_all, check_online, heartbeat_interval, close,
}
use http_portal.Server.Clients.Invariant.{IsSound, IsClosed, remove-IsSound}
use http_portal.Server.Clients.Shutdown.{clear_all-empty, check_online_by_silence}

abbrev pub quiet : Conn
quiet = record { inbox = []; outbox = []; writes = []; deadline = none; closed = false }

-- An agent that has logged in as `home`, with a request of number 5 whose reader waits.
abbrev pub home : PortalClient
home = record {
  receiver = record { seq = 5; requests = (5, waiting) ∷ [] };
  conn = quiet;
  name = "home";
  last_beat = 1 * second;
  online = true;
  is_login = true;
  is_websocket = false;
  websocket_id = 0;
  quit_closed = false;
}

-- A connection that has not logged in.
abbrev pub fresh : PortalClient
fresh = record {
  receiver = new_receiver;
  conn = quiet;
  name = "office";
  last_beat = 2 * second;
  online = true;
  is_login = false;
  is_websocket = false;
  websocket_id = 0;
  quit_closed = false;
}

abbrev pub two_clients : State
two_clients = record {
  clients = (1, home) ∷ (2, fresh) ∷ [];
  registered = ("home", 1) ∷ [];
  watched = 1 ∷ [];
}

two_clients-registered :
    (name : String) (id : ℕ)
    → lookup name two_clients.registered ≡ some id
    → ("home" ≡ name) × (id ≡ 1)
unfolding lookup
two_clients-registered name id e = ground (arith, eq_iff "home" name)

two_clients-found : lookup 1 two_clients.clients ≡ some home
unfolding lookup
two_clients-found = refl

pub two_clients-IsSound : IsSound two_clients
two_clients-IsSound = record {
  entries = λ name id e.
      let (same, one) = two_clients-registered name id e in
      (home, rw one two_clients-found, same, refl, refl);
}

-- The agent removed: its object is closed, and stays in the heap.
remove_run :
    remove "home" two_clients
    ≡ done (record {
      clients =
          (
            1,
            record home {
              online = false;
              quit_closed = true;
              conn = record quiet { closed = true };
            },
          )
          ∷ (2, fresh)
          ∷ [];
      registered = [];
      watched = 1 ∷ [];
    })
unfolding remove lookup insert delete close
remove_run = refl

remove-IsSound_example :
    (s' : State) × (remove "home" two_clients ≡ done s')
    × IsSound s'
    × (lookup "home" s'.registered ≡ none)
    × ((other : String)
        → ("home" == other) ≡ false
        → lookup other s'.registered ≡ lookup other two_clients.registered)
    × ((id : ℕ)
        → (lookup "home" two_clients.registered ≡ some id) ⊎ IsClosed two_clients id
        → IsClosed s' id)
remove-IsSound_example = remove-IsSound two_clients "home" two_clients-IsSound

clear_all-empty_example :
    (s' : State) × (clear_all two_clients ≡ done s')
    × ((name : String) → lookup name s'.registered ≡ none)
    × ((name : String) (id : ℕ) → lookup name two_clients.registered ≡ some id → IsClosed s' id)
clear_all-empty_example = clear_all-empty two_clients two_clients-IsSound

check_online_by_silence_example :
    (4 * heartbeat_interval < 42 * second - home.last_beat
      → (s' : State) × (check_online false (42 * second) 1 two_clients ≡ done (false, s'))
        × (lookup "home" s'.registered ≡ none)
        × IsClosed s' 1)
    × (2 * heartbeat_interval < 42 * second - home.last_beat
        → 42 * second - home.last_beat ≤ 4 * heartbeat_interval
        → (s' : State) × (check_online false (42 * second) 1 two_clients ≡ done (true, s'))
          × (s'.registered ≡ two_clients.registered)
          × (lookup 1 s'.clients ≡ some (record home { online = false })))
    × (42 * second - home.last_beat ≤ 2 * heartbeat_interval
        → check_online false (42 * second) 1 two_clients ≡ done (true, two_clients))
unfolding lookup
check_online_by_silence_example =
    check_online_by_silence two_clients (42 * second) 1 home two_clients-IsSound refl refl
