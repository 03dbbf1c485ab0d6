-- ===== src/System/Relay.antt =====
-- portal_server/proxy_server.go, DoRequest and keepConnection, behind core/net.go: the parts of a
-- response on their way from the connection to DoRequest, each of which arrives while DoRequest stands
-- in its select.
use http_portal.Base.{
  ℕ, zero, suc, ◌≡◌, refl, ap, ◌∙◌, subst, map-append, append_assoc, true, Option, none, some, List,
  [], ◌∷◌, ◌++◌, map, length, lookup, insert, lookup-insert, nat_eq, string_eq, arith,
}
use http_portal.Core.Messages.{RpcHeader, HttpResponse, http_response, resp_method_http_do}
use http_portal.Core.Conn.{Outcome, byte, Arrival}
use http_portal.Core.Wire.{Codec}
use http_portal.Core.Wire.Stream.{Sending, Frames, frame, Reads}
use http_portal.Core.Receiver.{
  Receiver, Channel, idle, waiting, handed, await, resume, send_response, hand_over,
}
use http_portal.Server.Clients.{PortalClient, State, Reply, rpc_message, put_client}
use http_portal.Server.Service.{get_msg}
use http_portal.Server.Connection.{Turn, again, leaves, crashes, round}
use http_portal.Server.Connection.Responses.{offered, round-offered}
use http_portal.Server.Relay.Response.{as_replies}

-- DoRequest's own steps on the channel of its request.
abbrev on_receiver : (Receiver Reply → Receiver Reply) → ℕ → Option PortalClient → State → State
on_receiver f id none s = s
on_receiver f id (some c) s = put_client id (record c { receiver = f c.receiver }) s

unfoldable pub at_client : (Receiver Reply → Receiver Reply) → ℕ → State → State
at_client f id s = on_receiver f id (lookup id s.clients) s

-- What it finds there.
abbrev in_channel : Option (Channel Reply) → List Reply → List Reply
in_channel (some (handed m)) more = m ∷ more
in_channel _ more = more

abbrev found_at : ℕ → Option PortalClient → List Reply → List Reply
found_at seq none more = more
found_at seq (some c) more = in_channel (lookup seq c.receiver.requests) more

-- So many rounds of keepConnection, each between DoRequest's entry into its select and the step in
-- which it goes on with what it was handed: the messages that it gets.
unfoldable pub relay :
    Codec → Outcome (List ℕ) → ℕ → (ℕ → Turn) → ℕ → ℕ → ℕ → ℕ → State → List Reply
unfolding at_client
relay codec nil_pointer send_timeout turns id seq zero delay s = []
relay codec nil_pointer send_timeout turns id seq (suc n) delay s =
    elim (round codec nil_pointer send_timeout id (turns n) delay (at_client (await seq) id s)) [
      | again delay' s' ↦ found_at seq (lookup id s'.clients) (
          relay codec nil_pointer send_timeout turns id seq n delay' (at_client (resume seq) id s'))
      | leaves s' ↦ []
      | crashes p ↦ []
    ]

-- The messages are parts of this response.
abbrev pub Parts : RpcHeader → List HttpResponse → List Sending → Type 0
Parts h [] [] = Unit {0}
Parts h (r ∷ rs) (x ∷ xs) = (x.header ≡ h) × (x.message ≡ http_response r) × Parts h rs xs
Parts h _ _ = zero ≡ 1

-- The connection that has still to give these bytes, of a client that is logged in and has this
-- request pending, whose reader is busy.
abbrev pub Ready : ℕ → ℕ → List Arrival → State → Type 0
Ready id seq inbox s =
    (c : PortalClient) × (lookup id s.clients ≡ some c)
    × (c.is_login ≡ true)
    × (c.conn.inbox ≡ inbox)
    × (lookup seq c.receiver.requests ≡ some idle)

at_client-found :
    (f : Receiver Reply → Receiver Reply) (id : ℕ) (c : PortalClient) (s : State)
    → lookup id s.clients ≡ some c
    → lookup id (at_client f id s).clients ≡ some (record c { receiver = f c.receiver })
unfolding at_client
at_client-found f id c s found =
    rw (found)
      (ground (arith, lookup-insert id id (record c { receiver = f c.receiver }) s.clients))

handed_lem :
    (h : RpcHeader) (seq : ℕ) (m : Reply) (r : Receiver Reply)
    → h.seq ≡ seq
    → lookup seq (send_response h.seq m (await seq r)).1.requests ≡ some (handed m)
unfolding send_response hand_over await
handed_lem h seq m r n =
    let here : lookup seq (insert seq waiting r.requests) ≡ some waiting =
      ground (arith, lookup-insert seq seq waiting r.requests) in
    rw (n, here) (ground (arith, lookup-insert seq seq (handed m) (insert seq waiting r.requests)))

resumed_lem : (seq : ℕ) (r : Receiver Reply) → lookup seq (resume seq r).requests ≡ some idle
unfolding resume
resumed_lem seq r = ground (arith, lookup-insert seq seq idle r.requests)

relay_step :
    (codec : Codec) (nil_pointer : Outcome (List ℕ)) (send_timeout : ℕ) (turns : ℕ → Turn)
    (id seq n delay delay' : ℕ) (s s' : State)
    → round codec nil_pointer send_timeout id (turns n) delay (at_client (await seq) id s)
      ≡ again delay' s'
    → relay codec nil_pointer send_timeout turns id seq (suc n) delay s
      ≡ found_at seq (lookup id s'.clients) (
          relay codec nil_pointer send_timeout turns id seq n delay' (at_client (resume seq) id s'))
unfolding relay
relay_step codec np st turns id seq n delay delay' s s' ran = rw (relay, ran) refl

found_at_lem :
    (seq : ℕ) (c : PortalClient) (o : Option PortalClient) (m : Reply) (more : List Reply)
    → o ≡ some c
    → lookup seq c.receiver.requests ≡ some (handed m)
    → found_at seq o more ≡ m ∷ more
found_at_lem seq c o m more found here = rw (found, here) refl

-- Whatever the frames of a response's parts are, DoRequest gets each part, and in order.
pub relay-Frames :
    (codec : Codec) (nil_pointer : Outcome (List ℕ)) (send_timeout : ℕ) (turns : ℕ → Turn)
    (id seq delay : ℕ) (h : RpcHeader) (rs : List HttpResponse) (xs : List Sending) (bs : List ℕ)
    (rest : List Arrival) (s : State)
    → h.method ≡ resp_method_http_do
    → h.seq ≡ seq
    → Parts h rs xs
    → Frames codec get_msg xs bs
    → Ready id seq (map byte bs ++ rest) s
    → relay codec nil_pointer send_timeout turns id seq (length xs) delay s ≡ as_replies h rs
unfolding relay
relay-Frames codec np st turns id seq delay h [] [] bs rest s m n parts frames ready = refl
relay-Frames codec np st turns id seq delay h [] (x ∷ xs) bs rest s m n parts frames ready = cc
relay-Frames codec np st turns id seq delay h (r ∷ rs) [] bs rest s m n parts frames ready = cc
relay-Frames codec np st turns id seq delay h (r ∷ rs) (x ∷ xs) bs rest s m n parts
      (frame b bs' reads frames) ready =
    let (c, found, known, arrived, out) = ready in
    let (same_header, same_message, parts') = parts in
    let c1 : PortalClient = record c { receiver = await seq c.receiver } in
    let s1 = at_client (await seq) id s in
    let read =
      subst (λ y. Reads codec get_msg h y b) same_message
        (subst (λ y. Reads codec get_msg y x.message b) same_header reads) in
    let (s2, ran, found2, names) =
      round-offered codec np st id delay (turns (length xs)) h r b (map byte bs' ++ rest) c1 s1 read
        (at_client-found (await seq) id c s found) (arrived ∙ rw (map-append, append_assoc) refl) m
        known in
    let c2 : PortalClient = offered (map byte bs' ++ rest) h r c1 in
    let chan : lookup seq c2.receiver.requests ≡ some (handed (rpc_message h r)) =
      handed_lem h seq (rpc_message h r) c.receiver n in
    let c3 : PortalClient = record c2 { receiver = resume seq c2.receiver } in
    let ready' : Ready id seq (map byte bs' ++ rest) (at_client (resume seq) id s2) = (
      c3,
      at_client-found (resume seq) id c2 s2 found2,
      known,
      refl,
      resumed_lem seq c2.receiver,
    ) in
    let rest_of =
      relay-Frames codec np st turns id seq delay h rs xs bs' rest (at_client (resume seq) id s2) m
        n parts' frames ready' in
    relay_step codec np st turns id seq (length xs) delay delay s s2 ran
    ∙ found_at_lem seq c2 (lookup id s2.clients) (rpc_message h r) _ found2 chan
    ∙ ap (◌∷◌ (rpc_message h r)) rest_of
