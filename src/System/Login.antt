-- ===== src/System/Login.antt =====
-- portal/portal.go, login and receive, with portal_server/proxy_server.go, keepConnection and Login:
-- an agent logs in.
use http_portal.Base.{
  ℕ, ◌+◌, ◌≡◌, refl, ap, sym, ◌∙◌, subst, String, true, false, none, some, List, [], ◌∷◌, ◌++◌, map,
  lookup, lookup-insert, nat_eq, string_eq, arith, length, eqb, eqb_iff, drop, drop-append_length,
}
use http_portal.Core.Messages.{
  RpcHeader, success, ack, is_resp_method, new_response_header, method_login,
}
use http_portal.Core.Conn.{Conn, Outcome, ok, byte, Arrival}
use http_portal.Core.Wire.{Codec, IsCodec, send, receive}
use http_portal.Core.Wire.Calm.{Calm}
use http_portal.Core.Receiver.{prepare_request}
use http_portal.Server.Clients.{PortalClient, State, put_client}
use http_portal.Server.Service as Service
use http_portal.Server.Service.{Served}
use http_portal.Server.Connection.{Turn, again, round}
use http_portal.Portal.Service as Agent
use http_portal.Portal.Agent as Portal
use http_portal.Portal.Agent.{hb_ok, responded}
use http_portal.Portal.Session.{
  Session, Call, login, send_with_context, login_message, request_header,
}
use http_portal.Portal.Session.Waiting.{Quiet, first_with}
use http_portal.Portal.Session.Refines.{
  Received, AllReceived, login-LogsIn, login_reaction, reaction, reaction_to,
}
use http_portal.Portal.Session.Sent.{login-conn}
use http_portal.Server.Service.Granted.{granted, process_msg-free}
use http_portal.Core.Wire.Stream.{Carries, Reads, carried}
use http_portal.System.Exchange.{round-answers}

-- The answer to a login that is granted.
abbrev pub login_answer : ℕ → RpcHeader
login_answer seq = new_response_header (request_header method_login seq)

login_answer-Received : (seq : ℕ) → Received (login_answer seq, ack (record { code = success }))
unfolding new_response_header Agent.get_msg
login_answer-Received seq = (refl, refl)

-- A login whose answer is a success with its number ends without an error, and the status is hbOK.
granted-login :
    (codec : Codec) (server_write : ℕ) (name : String) (w : Call) (s : Session)
    → Calm codec
    → Quiet s.receiver
    → let seq = (prepare_request s.receiver).0 in
      (send codec
          (some (w.now + server_write))
          (request_header method_login seq)
          (some (login_message name))
          s.conn).0
        ≡ ok tt
      → w.answers ≡ (login_answer seq, ack (record { code = success })) ∷ []
      → ((login codec server_write name w s).0 ≡ ok tt)
        × ((login codec server_write name w s).1.portal.status ≡ hb_ok)
        × Quiet (login codec server_write name w s).1.receiver
unfolding login_reaction send_with_context reaction reaction_to first_with new_response_header
    Portal.login
granted-login codec server_write name w s calm quiet sent answers =
    let seq = (prepare_request s.receiver).0 in
    let all : AllReceived w.answers = rw answers (login_answer-Received seq, tt) in
    let (ended, portal, after) = login-LogsIn codec server_write name w s calm quiet all in
    let same : eqb seq seq ≡ true = (eqb_iff seq seq).1 refl in
    let success_ : login_reaction codec server_write name w s ≡ responded "" success =
      rw (sent, answers, same) refl in
    (ended ∙ rw success_ refl, ap (λ x. x.status) portal ∙ rw success_ refl, after)

module _ (codec : Codec) (law : IsCodec codec) (nil_pointer : Outcome (List ℕ))
    (server_write send_timeout : ℕ) where
  -- An agent logs in: login sends its request; keepConnection, whose connection delivers what login
  -- wrote, receives it, registers the client under the agent's name, marks it as logged in, answers,
  -- and goes on; receive, whose connection delivers what keepConnection wrote, gets the answer; and
  -- login, which gets it while it waits, ends without an error, with the status hbOK and no request
  -- pending. The codec obeys its laws and marshals both messages, into frames that Receive takes, and
  -- does not panic; no Write fails; the agent had no request pending; the client is no websocket
  -- one; and the name is free.
  pub login_end_to_end :
      (name : String) (w : Call) (s : Session) (id delay : ℕ) (t : Turn) (c : PortalClient)
      (st : State) (bs : List ℕ) (rest rest' : List Arrival) (pool : List ℕ) (to : Conn)
      → Calm codec
      → Quiet s.receiver
      → s.conn.writes ≡ []
      → let seq = (prepare_request s.receiver).0 in
        Carries codec (request_header method_login seq) (login_message name)
        → Carries codec (login_answer seq) (ack (record { code = success }))
        → let out = login codec server_write name w s in
          out.1.conn.outbox ≡ s.conn.outbox ++ bs
          → lookup id st.clients ≡ some c
          → c.conn.inbox ≡ map byte bs ++ rest
          → c.conn.writes ≡ []
          → c.is_websocket ≡ false
          → lookup name st.registered ≡ none
          → w.answers ≡ (login_answer seq, ack (record { code = success })) ∷ []
          → (st' : State) × (c' : PortalClient) × (bs' : List ℕ) × (round codec nil_pointer
                send_timeout id t delay st
              ≡ again delay st')
            × (lookup name st'.registered ≡ some id)
            × (lookup id st'.clients ≡ some c')
            × (c'.name ≡ name)
            × (c'.is_login ≡ true)
            × (c'.conn.outbox ≡ c.conn.outbox ++ bs')
            × (receive codec none Agent.get_msg true pool
                  (record to { inbox = map byte bs' ++ rest' })
                ≡ (
                  ok (login_answer seq, ack (record { code = success })),
                  record to { inbox = rest'; deadline = none },
                ))
            × (out.0 ≡ ok tt)
            × (out.1.portal.status ≡ hb_ok)
            × Quiet out.1.receiver
  unfolding is_resp_method new_response_header Agent.get_msg Service.get_msg
  login_end_to_end name w s id delay t c st bs rest rest' pool to calm quiet writes asks answers
        wrote found arrived writes' normal free got =
      let seq = (prepare_request s.receiver).0 in
      let h = request_header method_login seq in
      let m = login_message name in
      let (bs0, (sent, wrote0, reads)) =
        carried codec law (some (w.now + server_write)) Service.get_msg h m s.conn asks refl refl
          writes in
      let same : bs0 ≡ bs =
        sym (drop-append_length s.conn.outbox bs0)
        ∙ ap (drop (length s.conn.outbox))
            (sym wrote0 ∙ ap (λ x. x.outbox) (sym (login-conn codec server_write name w s)) ∙ wrote)
        ∙ drop-append_length s.conn.outbox bs in
      let read : PortalClient = record c {
        conn = record c.conn { inbox = rest; deadline = none };
      } in
      let served =
        process_msg-free id t.now h (record { name = name; resp_seq = 0 }) read
          (put_client id read st) (ground (arith, lookup-insert id id read st.clients)) free refl
          refl in
      let known : PortalClient = record read { name = name; is_login = true } in
      let behind = granted id (record read { name = name }) (put_client id read st) in
      let there : lookup id behind.clients ≡ some known = ground (
        arith,
        lookup-insert id id known
            (put_client id (record read { name = name }) (put_client id read st)).clients,
      ) in
      let (conn, bs', ran, wrote', (sent', wrote'', back)) =
        round-answers codec law nil_pointer send_timeout id delay t h m bs rest c known st
          (record { response = some success; failure = none; state = behind }) success Agent.get_msg
          (subst (λ x. Reads codec Service.get_msg h m x) same reads) found arrived served refl refl
          refl refl there normal writes' answers refl in
      let (ended, on, after) = granted-login codec server_write name w s calm quiet sent got in
      let c' : PortalClient = record known { conn = conn } in
      (
        put_client id c' behind,
        c',
        bs',
        ran,
        ground (arith, lookup-insert name name id st.registered, string_eq.equal_iff name name),
        ground (arith, lookup-insert id id c' behind.clients),
        refl,
        refl,
        wrote',
        back pool (record to { inbox = map byte bs' ++ rest' }) rest' refl,
        ended,
        on,
        after,
      )
