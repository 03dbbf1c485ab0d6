-- ===== src/Portal/Session/Sent.antt =====
-- portal/portal.go: login and heartbeat write their request on the connection, and nothing else.
use http_portal.Base.{ℕ, ◌+◌, String, Bool, ◌≡◌, refl, some}
use http_portal.Core.Messages.{method_login, method_heartbeat}
use http_portal.Core.Conn.{Outcome, ok, err, panic}
use http_portal.Core.Wire.{Codec, send}
use http_portal.Core.Receiver.{prepare_request}
use http_portal.Portal.Session.{
  Session, Call, login, login_sent, finished, send_with_context, login_message, beat_message,
  request_header, request_beat, beat_sent,
}

module _ (codec : Codec) (server_write : ℕ) (name : String) where
  login_sent-conn :
      (seq : ℕ) (w : Call) (s : Session) (sent : Outcome (Unit {0}))
      → (finished seq (login_sent codec server_write name seq w s sent)).1.conn ≡ s.conn
  unfolding finished login_sent
  login_sent-conn seq w s (ok u) = refl
  login_sent-conn seq w s (err e) = refl
  login_sent-conn seq w s (panic p) = refl

  pub login-conn :
      (w : Call) (s : Session)
      → (login codec server_write name w s).1.conn
        ≡ (send codec
            (some (w.now + server_write))
            (request_header method_login (prepare_request s.receiver).0)
            (some (login_message name))
            s.conn).1
  unfolding login send_with_context
  login-conn w s = login_sent-conn _ w _ _

  beat_sent-conn :
      (stopped : Bool) (seq : ℕ) (w : Call) (s : Session) (sent : Outcome (Unit {0}))
      → (finished seq (beat_sent codec server_write name stopped seq w s sent)).1.conn ≡ s.conn
  unfolding finished beat_sent
  beat_sent-conn stopped seq w s (ok u) = refl
  beat_sent-conn stopped seq w s (err e) = refl
  beat_sent-conn stopped seq w s (panic p) = refl

  pub request_beat-conn :
      (stopped : Bool) (w : Call) (s : Session)
      → (request_beat codec server_write name stopped w s).1.conn
        ≡ (send codec
            (some (w.now + server_write))
            (request_header method_heartbeat (prepare_request s.receiver).0)
            (some (beat_message w.now))
            s.conn).1
  unfolding request_beat send_with_context
  request_beat-conn stopped w s = beat_sent-conn stopped _ w _ _
