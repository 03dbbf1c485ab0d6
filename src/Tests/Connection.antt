-- ===== src/Tests/Connection.antt =====
-- portal_server/proxy_server.go: keepConnection and accept at concrete inputs.
use http_portal.Base.{
  ℕ, ◌+◌, ◌≡◌, refl, inl, inr, true, false, Option, none, some, List, [], ◌∷◌, ◌++◌, map, lookup,
  nat_eq, string_eq, arith, length,
}
use http_portal.Core.Errors.{Error, opaque, is_temporary, foreign}
use http_portal.Core.Messages.{login_request}
use http_portal.Core.Conn.{ok, err, byte, read_from, read_full}
use http_portal.Core.Wire.Bytes.{put_uint32}
use http_portal.Core.Wire.{Codec, rpc_begin_flag, receive}
use http_portal.Server.Clients.{PortalClient, State, Step}
use http_portal.Server.Service.{get_msg}
use http_portal.Server.Connection.{Turn, round, keep_connection}
use http_portal.Server.Connection.Ending.{keep_connection_ends}
use http_portal.Server.Connection.Refusal.{Unanswered, refused_login-Unanswered}
use http_portal.Server.Listener as Listener
use http_portal.Server.Listener.{accept, returned, crashed}
use http_portal.Server.Listener.Accepted.{accepted_of, accept_until}
use http_portal.Tests.Clients.{quiet, fresh, home}

-- A codec that knows one header and one message, a login as `home`.
abbrev pub login_codec : Codec
login_codec = record {
  marshal_header = λ h. ok (h.seq ∷ []);
  header_size = λ h. 1;
  marshal = λ m. ok (1 ∷ []);
  unmarshal_header = λ bs. ok (record { method = "login"; error = ""; seq = 7 });
  unmarshal = λ k bs. ok (login_request (record { name = "home"; resp_seq = 0 }));
}

abbrev login_frame : List ℕ
login_frame = put_uint32 rpc_begin_flag ++ (put_uint32 2 ++ (put_uint32 1 ++ 7 ∷ 1 ∷ []))

abbrev knocking : PortalClient
knocking = record fresh { conn = record quiet { inbox = map byte login_frame } }

abbrev with_knocking : State
with_knocking = record {
  clients = (1, home) ∷ (2, knocking) ∷ [];
  registered = ("home", 1) ∷ [];
  watched = 1 ∷ [];
}

abbrev calm : Turn
calm = record { now = 3; pool = []; stopped = false }

keep_connection_ends_example :
    (r : Step State) × (keep_connection login_codec
        (err (opaque "nil"))
        5
        20
        (λ n. calm)
        2
        0
        with_knocking
      ≡ some r)
unfolding lookup
keep_connection_ends_example =
    keep_connection_ends login_codec (err (opaque "nil")) 5 20 (λ n. calm) 2 0 knocking
      with_knocking refl (omega arith)

login_received : receive login_codec none get_msg true [] knocking.conn ≡ (
  ok (
    record { method = "login"; error = ""; seq = 7 },
    login_request (record { name = "home"; resp_seq = 0 }),
  ),
  quiet,
)
unfolding receive get_msg read_from read_full
login_received = refl

refused_login-Unanswered_example :
    Unanswered login_codec
      (opaque "nil")
      5
      2
      0
      (record knocking { conn = quiet })
      with_knocking
      (round login_codec (err (opaque "nil")) 5 2 calm 0 with_knocking)
unfolding lookup
refused_login-Unanswered_example =
    refused_login-Unanswered login_codec (opaque "nil") 5 2 1 0 calm
      (record { method = "login"; error = ""; seq = 7 }) (record { name = "home"; resp_seq = 0 })
      knocking quiet with_knocking (λ header p e. cc) refl login_received refl refl refl refl

-- A connection, a temporary error, and then one that is not.
abbrev first_turn : Listener.Turn
first_turn = record { now = 3; accept = inr quiet; stopped = false; listen = none }

abbrev busy_turn : Listener.Turn
busy_turn = record first_turn { accept = inl (foreign "too many open files" true) }

abbrev broken_turn : Listener.Turn
broken_turn = record first_turn { accept = inl (foreign "closed" false) }

abbrev absent : Option Error
absent = none

accept_until_example :
    (s' : State) × (s'.registered ≡ with_knocking.registered)
    × (length s'.clients ≡ accepted_of (first_turn ∷ busy_turn ∷ []) + 2)
    × (false ≡ true
        → accept (first_turn ∷ busy_turn ∷ broken_turn ∷ []) 0 with_knocking ≡ returned s')
    × ((x : Error)
        → false ≡ false
        → absent ≡ some x
        → accept (first_turn ∷ busy_turn ∷ broken_turn ∷ []) 0 with_knocking ≡ returned s')
    × (false ≡ false
        → absent ≡ none
        → accept (first_turn ∷ busy_turn ∷ broken_turn ∷ []) 0 with_knocking
          ≡ crashed "nil pointer")
unfolding is_temporary
accept_until_example =
    accept_until (first_turn ∷ busy_turn ∷ []) [] broken_turn 0 with_knocking
      (foreign "closed" false)
      (inl (quiet, refl), (inr (foreign "too many open files" true, refl, refl), tt)) refl refl
