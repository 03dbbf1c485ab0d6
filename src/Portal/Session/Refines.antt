-- ===== src/Portal/Session/Refines.antt =====
-- portal/portal.go: login and heartbeat with their messages and numbers do what Portal.Agent says.
use http_portal.Base.{
  ℕ, String, ◌≡◌, refl, subst, ap, inl, inr, Bool, false, Option, none, some, List, [], ◌∷◌, nat_eq,
  string_eq, ◌==◌, arith, eqb, Bool-cases,
}
use http_portal.Core.Errors.{Error}
use http_portal.Core.Messages.{
  RpcHeader, Message, login_request, heartbeat, http_request, http_response, ack, kind_of,
  method_http_do, method_login, method_heartbeat, method_heartbeat, an_ack,
}
use http_portal.Core.Conn.{Conn, Outcome, ok, err, panic}
use http_portal.Core.Wire.{Codec}
use http_portal.Core.Wire.Calm.{Calm, NoPanic, send-NoPanic}
use http_portal.Core.Receiver.{prepare_request}
use http_portal.Portal.Service.{get_msg, login_get_msg}
use http_portal.Portal.Agent as Agent
use http_portal.Portal.Agent.{
  Status, LocalPortal, Reaction, not_sent, no_response, responded, hb_error,
}
use http_portal.Portal.Session.{
  RpcMessage, Session, Call, login_select, send_with_context, login_sent, login_message,
  beat_message, request_header, finished, login, beat_select, beat_sent, beat_failed, request_beat,
}
use http_portal.Portal.Session.Waiting.{
  Quiet, first_with, wait_for-first_with, prepare_request-delete_seq,
}

-- What receive hands to SendResponse: getMsg has chosen the message's type, and it is no request.
abbrev pub Received : RpcMessage → Type 0
Received (h, m) = (get_msg h ≡ ok (kind_of m)) × ((h.method == method_http_do) ≡ false)

Received-an_ack : (h : RpcHeader) (m : Message) → Received (h, m) → kind_of m ≡ an_ack
unfolding get_msg login_get_msg
Received-an_ack h m (chosen, no_request) = ground arith

abbrev pub AllReceived : List RpcMessage → Type 0
AllReceived [] = Unit {0}
AllReceived (m ∷ ms) = Received m × AllReceived ms

-- The first response is one of them.
first_with-Received :
    (seq : ℕ) (ms : List RpcMessage)
    → AllReceived ms
    → (m : RpcMessage) → first_with seq ms ≡ some m
    → Received m
unfolding first_with
first_with-Received seq [] all m e = cc
first_with-Received seq ((h, b) ∷ ms) (one, all) m e = elim (Bool-cases (eqb seq h.seq)) [
  | inl own ↦ let same : (h, b) ≡ m = ground arith in subst (λ x. Received x) same one
  | inr other ↦ first_with-Received seq ms all m (ground arith)
]

-- How a request ended, as Portal.Agent is told of it.
unfoldable pub reaction_to : Error → Option RpcMessage → Reaction
reaction_to e none = no_response e
reaction_to e (some (h, ack a)) = responded h.error a.code
reaction_to e (some (h, _)) = no_response e

unfoldable pub reaction : Error → Outcome (Unit {0}) → Option RpcMessage → Reaction
unfolding reaction_to
reaction e (ok u) got = reaction_to e got
reaction e (err x) got = not_sent x
reaction e (panic p) got = no_response e

-- An error, or none, as the outcome of a call.
abbrev pub outcome_of : Option Error → Outcome (Unit {0})
outcome_of none = ok tt
outcome_of (some e) = err e

login_select-login :
    (w : Call) (got : Option RpcMessage) (p : LocalPortal)
    → ((m : RpcMessage) → got ≡ some m → kind_of m.1 ≡ an_ack)
    → let (e, p') = Agent.login (reaction_to w.ended got) p in
      login_select w got p ≡ (outcome_of e, p')
unfolding login_select reaction_to Agent.login
login_select-login w none p acks = refl
login_select-login w (some (h, ack a)) p acks = ground arith
login_select-login w (some (h, http_request q)) p acks = let no = acks _ refl in cc
login_select-login w (some (h, http_response q)) p acks = let no = acks _ refl in cc
login_select-login w (some (h, login_request q)) p acks = let no = acks _ refl in cc
login_select-login w (some (h, heartbeat q)) p acks = let no = acks _ refl in cc

-- The call did what Portal.Agent says for this reaction, and left no request pending.
abbrev pub LogsIn : Reaction → LocalPortal → Outcome (Unit {0}) × Session → Type 0
LogsIn r p out =
    (out.0 ≡ outcome_of (Agent.login r p).0)
    × (out.1.portal ≡ (Agent.login r p).1)
    × Quiet out.1.receiver

-- The same of a heartbeat.
abbrev pub Beats : Bool → Reaction → LocalPortal → Outcome Status × Session → Type 0
Beats stopped r p out =
    (out.0 ≡ ok (Agent.request_status stopped r)) × (out.1.portal ≡ p) × Quiet out.1.receiver

beat_select-request_status :
    (stopped : Bool) (e : Error) (got : Option RpcMessage)
    → ((m : RpcMessage) → got ≡ some m → kind_of m.1 ≡ an_ack)
    → beat_select got ≡ ok (Agent.request_status stopped (reaction_to e got))
unfolding beat_select reaction_to Agent.request_status
beat_select-request_status stopped e none acks = refl
beat_select-request_status stopped e (some (h, ack a)) acks = ground arith
beat_select-request_status stopped e (some (h, http_request q)) acks = let no = acks _ refl in cc
beat_select-request_status stopped e (some (h, http_response q)) acks = let no = acks _ refl in cc
beat_select-request_status stopped e (some (h, login_request q)) acks = let no = acks _ refl in cc
beat_select-request_status stopped e (some (h, heartbeat q)) acks = let no = acks _ refl in cc

module _ (codec : Codec) (server_write : ℕ) (name : String) where
  -- The reaction to the request of login: what Send said of it, and the first response with its
  -- number that came while login waited.
  unfoldable pub login_reaction : Call → Session → Reaction
  unfolding reaction
  login_reaction w s =
      let (seq, r) = prepare_request s.receiver in
      let header = request_header method_login seq in
      reaction w.ended
        (send_with_context codec server_write name w.now header (login_message name) s.conn).0
        (first_with seq w.answers)

  login_sent-LogsIn :
      (w : Call) (s : Session) (c : Conn) (sent : Outcome (Unit {0}))
      → NoPanic sent
      → Quiet s.receiver
      → AllReceived w.answers
      → let (seq, r) = prepare_request s.receiver in
        LogsIn (reaction w.ended sent (first_with seq w.answers)) s.portal (
          finished seq
            (login_sent codec server_write name seq w (record s { conn = c; receiver = r }) sent))
  unfolding finished login_sent reaction Agent.login
  login_sent-LogsIn w s c (ok u) calm quiet all =
      let (got, after) = wait_for-first_with w s.receiver quiet in
      let acks = λ (m : RpcMessage) (e : first_with _ w.answers ≡ some m).
        let here = first_with-Received _ w.answers all m e in Received-an_ack m.0 m.1 here in
      let same = login_select-login w (first_with _ w.answers) s.portal acks in
      rw (got) (ap (λ x. x.0) same, ap (λ x. x.1) same, after)
  login_sent-LogsIn w s c (err e) calm quiet all =
      (refl, refl, prepare_request-delete_seq s.receiver quiet)
  login_sent-LogsIn w s c (panic p) calm quiet all = elim (calm p refl) [ ]

  -- login with its message, its number and its select does what Portal.Agent says for the reaction
  -- of the network, and leaves no request pending: where marshalling does not panic, no request was
  -- pending, and whatever getMsg accepts comes as an answer.
  pub login-LogsIn :
      (w : Call) (s : Session)
      → Calm codec
      → Quiet s.receiver
      → AllReceived w.answers
      → LogsIn (login_reaction w s) s.portal (login codec server_write name w s)
  unfolding login login_reaction send_with_context
  login-LogsIn w s calm quiet all =
      let (seq, r) = prepare_request s.receiver in
      let sent =
        send_with_context codec server_write name w.now (request_header method_login seq)
          (login_message name) s.conn in
      login_sent-LogsIn w s sent.1 sent.0
        (unfold send_with_context in send-NoPanic codec _ _ _ s.conn calm) quiet all

  -- The reaction to the request of heartbeat.
  unfoldable pub beat_reaction : Call → Session → Reaction
  unfolding reaction
  beat_reaction w s =
      let (seq, r) = prepare_request s.receiver in
      reaction w.ended
        (send_with_context codec server_write name w.now (request_header method_heartbeat seq)
          (beat_message w.now) s.conn).0
        (first_with seq w.answers)

  beat_sent-Beats :
      (stopped : Bool) (w : Call) (s : Session) (c : Conn) (sent : Outcome (Unit {0}))
      → NoPanic sent
      → Quiet s.receiver
      → AllReceived w.answers
      → let (seq, r) = prepare_request s.receiver in
        Beats stopped (reaction w.ended sent (first_with seq w.answers)) s.portal (
          finished seq (
            beat_sent codec server_write name stopped seq w
              (record s { conn = c; receiver = r })
              sent))
  unfolding finished beat_sent reaction Agent.request_status beat_failed
  beat_sent-Beats stopped w s c (ok u) calm quiet all =
      let (got, after) = wait_for-first_with w s.receiver quiet in
      let acks = λ (m : RpcMessage) (e : first_with _ w.answers ≡ some m).
        let here = first_with-Received _ w.answers all m e in Received-an_ack m.0 m.1 here in
      rw (got)
        (beat_select-request_status stopped w.ended (first_with _ w.answers) acks, refl, after)
  beat_sent-Beats stopped w s c (err e) calm quiet all =
      (refl, refl, prepare_request-delete_seq s.receiver quiet)
  beat_sent-Beats stopped w s c (panic p) calm quiet all = elim (calm p refl) [ ]

  -- The same of heartbeat behind recoverHeartbeat.
  pub request_beat-Beats :
      (stopped : Bool) (w : Call) (s : Session)
      → Calm codec
      → Quiet s.receiver
      → AllReceived w.answers
      → Beats stopped
          (beat_reaction w s)
          s.portal
          (request_beat codec server_write name stopped w s)
  unfolding request_beat beat_reaction send_with_context
  request_beat-Beats stopped w s calm quiet all =
      let (seq, r) = prepare_request s.receiver in
      let sent =
        send_with_context codec server_write name w.now (request_header method_heartbeat seq)
          (beat_message w.now) s.conn in
      beat_sent-Beats stopped w s sent.1 sent.0
        (unfold send_with_context in send-NoPanic codec _ _ _ s.conn calm) quiet all
