-- ===== src/Server/Service/Relogin.antt =====
-- portal_server/proxy_server.go: a second login on one connection, under another name.
use http_portal.Base.{
  ℕ, ◌≡◌, refl, String, true, false, none, some, ◌∷◌, lookup, insert, delete, nat_eq, string_eq,
  arith, lookup-insert, lookup-delete, eqb, eqb_iff,
}
use text.Mathlib.TextEquality.{eq_iff}
use text.Mathlib.TextPositions.{eq_refl}
use http_portal.Core.Errors.{Error, opaque}
use http_portal.Core.Messages.{success}
use http_portal.Server.Clients.{PortalClient, State, done, panics, add, remove, close}
use http_portal.Server.Clients.Invariant.{IsClosed}
use http_portal.Server.Service.{
  login, login_client, login_normal, added, end_connection, end_client,
}

-- An open connection, no websocket one, that is registered under one name can log in again under a
-- free one; Login answers with success. When the connection then ends, only the second name is
-- removed: the first stays registered, for an object whose Quit channel is closed, so that a Remove
-- of that name panics.
pub relogin_leaves_closed_client :
    (s : State) (id : ℕ) (c : PortalClient) (first second : String)
    → lookup id s.clients ≡ some c
    → lookup first s.registered ≡ some id
    → lookup second s.registered ≡ none
    → c.quit_closed ≡ false
    → c.is_websocket ≡ false
    → (s1 : State) × (s2 : State) × (login id (record { name = second; resp_seq = 0 }) s
        ≡ done (record { response = some success; failure = none; state = s1 }))
      × (end_connection id s1 ≡ done s2)
      × (lookup first s2.registered ≡ some id)
      × IsClosed s2 id
      × (remove first s2 ≡ panics "close of closed channel")
unfolding login login_client login_normal added add end_connection end_client remove close
relogin_leaves_closed_client s id c first second found here free fresh normal =
    let named : PortalClient = record c { name = second } in
    let logged : PortalClient = record named { is_login = true } in
    let shut : PortalClient = record logged {
      online = false;
      quit_closed = true;
      conn = record c.conn { closed = true };
    } in
    let s1 : State = record {
      clients = insert id logged (insert id named s.clients);
      registered = insert second id s.registered;
      watched = id ∷ s.watched;
    } in
    let s2 : State = record s1 {
      clients = insert id shut s1.clients;
      registered = delete second s1.registered;
    } in
    let now_logged : lookup id s1.clients ≡ some logged =
      ground (arith, lookup-insert id id logged (insert id named s.clients)) in
    let now_second : lookup second s1.registered ≡ some id =
      ground (arith, lookup-insert second second id s.registered, eq_refl second) in
    let still_first : lookup first s2.registered ≡ some id = ground (
      arith,
      lookup-delete second first s1.registered,
      lookup-insert second first id s.registered,
      eq_iff second first,
    ) in
    let closed : lookup id s2.clients ≡ some shut =
      ground (arith, lookup-insert id id shut s1.clients) in
    (
      s1,
      s2,
      ground (arith, found, free),
      ground (arith, now_logged, now_second, fresh, normal),
      still_first,
      (shut, closed, refl),
      ground (arith, still_first, closed),
    )

-- A logged-in connection, no websocket one, may ask for the name of another agent that is open: the
-- Login is refused, but the connection has taken the name. When it ends, the other agent is removed
-- and closed, and the connection's own object keeps all but its name.
pub relogin_evicts_other :
    (s : State) (id other : ℕ) (c d : PortalClient) (name : String)
    → lookup id s.clients ≡ some c
    → lookup other s.clients ≡ some d
    → eqb id other ≡ false
    → lookup name s.registered ≡ some other
    → c.is_login ≡ true
    → c.is_websocket ≡ false
    → d.quit_closed ≡ false
    → (s1 : State) × (s2 : State) × (x : Error) × (login id (record { name = name; resp_seq = 0 }) s
        ≡ done (record { response = none; failure = some x; state = s1 }))
      × (end_connection id s1 ≡ done s2)
      × (lookup name s2.registered ≡ none)
      × IsClosed s2 other
      × (lookup id s2.clients ≡ some (record c { name = name }))
unfolding login login_client login_normal added add end_connection end_client remove close
relogin_evicts_other s id other c d name found there apart taken logged normal open_ =
    let named : PortalClient = record c { name = name } in
    let shut : PortalClient = record d {
      online = false;
      quit_closed = true;
      conn = record d.conn { closed = true };
    } in
    let s1 : State = record s { clients = insert id named s.clients } in
    let s2 : State = record s1 {
      clients = insert other shut s1.clients;
      registered = delete name s.registered;
    } in
    let at_id : lookup id s1.clients ≡ some named =
      ground (arith, lookup-insert id id named s.clients) in
    let at_other : lookup other s1.clients ≡ some d =
      ground (arith, lookup-insert id other named s.clients) in
    (
      s1,
      s2,
      opaque "client name exists",
      ground arith,
      rw at_id (ground arith),
      ground (arith, lookup-delete name name s.registered, eq_refl name),
      (shut, ground (arith, lookup-insert other other shut s1.clients), refl),
      ground (arith, lookup-insert other id shut s1.clients, eqb_iff id other, eqb_iff other id),
    )
