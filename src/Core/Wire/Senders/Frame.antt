-- ===== src/Core/Wire/Senders/Frame.antt =====
-- core/net.go: what one Send writes, whatever the deadline is.
use http_portal.Base.{
  ℕ, ◌≡◌, refl, sym, subst, ◌∙◌, ◌∙◌, false, Option, none, some, List, [], ◌∷◌, ◌++◌, arith, ◌==◌,
  string_eq,
}
use http_portal.Core.Conn.{
  Conn, Outcome, ok, err, panic, WriteOutcome, wrote, broke, write, write_one,
}
use http_portal.Core.Wire.{Codec, frame_head, marshal_body, send, send_frame, lift}
use http_portal.Core.Wire.Stream.{Sending}

-- The same was written, and the same calls of Write are to come: all but the deadline, which the
-- goroutines set and reset outside of the lock.
abbrev pub Same : Conn → Conn → Type 0
Same c d = (c.outbox ≡ d.outbox) × (c.writes ≡ d.writes)

pub Same-sym : (c d : Conn) → Same c d → Same d c
Same-sym c d (o, w) = (sym o, sym w)

pub Same-trans : (c d e : Conn) → Same c d → Same d e → Same c e
Same-trans c d e (o, w) (o', w') = (o ∙ o', w ∙ w')

-- The Sends one after the other, each to its end; the first errors do not stop the others.
unfoldable pub one_by_one : Codec → (ℕ → Sending) → List ℕ → Conn → Conn
one_by_one codec sends [] c = c
one_by_one codec sends (i ∷ is) c =
    let x = sends i in
    one_by_one codec sends is (send codec x.deadline x.header (some x.message) c).1

pub one_by_one-snoc :
    (codec : Codec) (sends : ℕ → Sending) (is : List ℕ) (i : ℕ) (c : Conn)
    → let x = sends i in
      one_by_one codec sends (is ++ i ∷ []) c
      ≡ (send codec x.deadline x.header (some x.message) (one_by_one codec sends is c)).1
unfolding one_by_one
one_by_one-snoc codec sends [] i c = refl
one_by_one-snoc codec sends (j ∷ is) i c = one_by_one-snoc codec sends is i _

write_one-Same :
    (bs : List ℕ) (ws : List WriteOutcome) (c d : Conn)
    → Same c d
    → ((write_one bs ws c).0 ≡ (write_one bs ws d).0)
      × (((write_one bs ws c).1.outbox ≡ (write_one bs ws d).1.outbox)
          × ((write_one bs ws c).1.writes ≡ (write_one bs ws d).1.writes))
unfolding write_one
write_one-Same bs [] c d (o, w) = (refl, (rw o refl, w))
write_one-Same bs (wrote ∷ ws) c d (o, w) = (refl, (rw o refl, refl))
write_one-Same bs (broke n e ∷ ws) c d (o, w) = (refl, (rw o refl, refl))

pub write-Same :
    (bs : List ℕ) (c d : Conn)
    → Same c d
    → ((write bs c).0 ≡ (write bs d).0) × Same (write bs c).1 (write bs d).1
unfolding write
write-Same bs c d (o, w) =
    subst
      (λ ws. ((write_one bs ws c).0 ≡ (write bs d).0) × Same (write_one bs ws c).1 (write bs d).1)
      (sym w) (write_one-Same bs d.writes c d (o, w))

-- What Send writes for x: its method is set, and these are the two texts of its frame.
abbrev pub Framed : Codec → Sending → List ℕ → List ℕ → Type 0
Framed codec x h b =
    ((x.header.method == "") ≡ false)
    × ((head : List ℕ) × (body : List ℕ) × (codec.marshal_header x.header ≡ ok head)
        × (codec.marshal x.message ≡ ok body)
        × (h ≡ frame_head codec x.header (head ++ body))
        × (b ≡ head ++ body))

-- What follows the first call of Write, and both calls.
unfoldable pub body_after : List ℕ → Outcome (Unit {0}) × Conn → Conn
body_after b (ok u, c) = (write b c).1
body_after b (err e, c) = c
body_after b (panic p, c) = c

body_after-Same :
    (b : List ℕ) (o : Outcome (Unit {0})) (c d : Conn)
    → Same c d
    → Same (body_after b (o, c)) (body_after b (o, d))
unfolding body_after
body_after-Same b (ok u) c d same = (write-Same b c d same).1
body_after-Same b (err e) c d same = same
body_after-Same b (panic p) c d same = same

abbrev pub two_writes : List ℕ → List ℕ → Conn → Conn
two_writes h b c = body_after b (write h c)

pub two_writes-Same :
    (h b : List ℕ) (c d : Conn) → Same c d → Same (two_writes h b c) (two_writes h b d)
unfolding body_after
two_writes-Same h b c d same =
    let (o, same') = write-Same h c d same in
    subst (λ q. Same (body_after b (q, (write h c).1)) (two_writes h b d)) (sym o)
      (body_after-Same b (write h d).0 (write h c).1 (write h d).1 same')

send_frame-two_writes :
    (codec : Codec) (x : Sending) (h b : List ℕ) (c : Conn)
    → Framed codec x h b
    → (send_frame codec x.header (some x.message) c).1 ≡ two_writes h b c
unfolding body_after send_frame marshal_body lift
send_frame-two_writes codec x h b c (named, (head, body, m, m', eh, eb)) =
    rw (m, m', eh, eb) (ground arith)

pub send-two_writes :
    (codec : Codec) (x : Sending) (d : Option ℕ) (h b : List ℕ) (c : Conn)
    → Framed codec x h b
    → Same (send codec d x.header (some x.message) c).1 (two_writes h b c)
unfolding send
send-two_writes codec x none h b c (named, f) =
    let e = send_frame-two_writes codec x h b c (named, f) in rw (named, e) (refl, refl)
send-two_writes codec x (some t) h b c (named, f) =
    let c' : Conn = record c { deadline = some t } in
    let e = send_frame-two_writes codec x h b c' (named, f) in
    let (o, w) = two_writes-Same h b c' c (refl, refl) in rw (named, e) (o, w)
