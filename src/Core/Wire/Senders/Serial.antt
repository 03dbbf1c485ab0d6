-- ===== src/Core/Wire/Senders/Serial.antt =====
-- core/net.go: the lock keeps the frames of concurrent Sends apart.
use mathlib.Core.Bool.{false≢true}
use http_portal.Base.{
  ℕ, ◌≤◌, ◌≡◌, refl, sym, subst, ◌⊎◌, inl, inr, Bool, true, false, Option, none, some, List, [],
  ◌∷◌, arith, ◌==◌, string_eq, if◌then◌else◌,
}
use http_portal.Core.Errors.{opaque, wrap_error}
use http_portal.Core.Conn.{Conn, Outcome, ok, err, panic, write}
use http_portal.Core.Wire.{Codec, marshal_body, send}
use http_portal.Core.Wire.Stream.{Sending}
use http_portal.Core.Wire.Senders.{
  Stage, starts, waits, holds, wrote_head, leaves, ended, crashed, Senders, before, move, set_until,
  reset_until, marshalled, after_head, after_body, turn_at, run_turns,
}
use http_portal.Core.Wire.Senders.Frame.{
  Same, Framed, one_by_one, write-Same, body_after, two_writes, send-two_writes, Same-sym,
  Same-trans,
}
use http_portal.Core.Wire.Senders.Once.{occurs, written, run_turns-once}
use http_portal.Core.Wire.Senders.Lock.{
  Fits, inside, IsSerial, Free, base, outside, moved, advance, takes, gives,
}

module _ (codec : Codec) (sends : ℕ → Sending) (start : Conn) where
  -- What Send of i writes where its lock was taken when the connection was as `base codec sends start` says.
  ran :
      (i : ℕ) (h b : List ℕ) (s : Senders) (o : Outcome (Unit {0})) (c : Conn)
      → Framed codec (sends i) h b
      → (write h (base codec sends start s)).0 ≡ o
      → Same c (body_after b (o, (write h (base codec sends start s)).1))
      → Same c
          (send codec
            (sends i).deadline
            (sends i).header
            (some (sends i).message)
            (base codec sends start s)).1
  unfolding body_after
  ran i h b s o c f e same =
      let x = sends i in
      let sent = (send codec x.deadline x.header (some x.message) (base codec sends start s)).1 in
      let two = two_writes h b (base codec sends start s) in
      Same-trans c two sent
        (subst (λ q. Same c (body_after b (q, (write h (base codec sends start s)).1))) (sym e)
          same)
        (Same-sym sent two (send-two_writes codec x x.deadline h b (base codec sends start s) f))

  head_written :
      (i : ℕ) (h b : List ℕ) (s : Senders) (o : Outcome (Unit {0})) (c : Conn)
      → IsSerial codec sends start s
      → Framed codec (sends i) h b
      → s.holder ≡ some i
      → o ≡ (write h (base codec sends start s)).0
      → Same c (write h (base codec sends start s)).1
      → IsSerial codec sends start (after_head i b (o, c) s)
  unfolding after_head move body_after
  head_written i h b s (ok u) c (all, free) f at o same = (
    moved codec sends start i (wrote_head b) (record s { conn = c }) (h, f, at, sym o, same)
        (λ j ne.
          outside codec sends start (sends j) j (base codec sends start s) s.conn
            (base codec sends start s) c s.holder s.holder (s.stages j) (λ e. ne cc) (all j)),
    subst (λ q. Free codec sends start q (move i (wrote_head b) (record s { conn = c }))) (sym at)
        (ground arith),
  )
  head_written i h b s (err e) c (all, free) f at o same =
      gives codec sends start i (leaves (some (wrap_error e "write len error"))) s c at all
        (λ b' c'. tt) (ran i h b s (err e) c f (sym o) same)
  head_written i h b s (panic p) c (all, free) f at o same =
      gives codec sends start i (crashed p) s c at all (λ b' c'. tt)
        (ran i h b s (panic p) c f (sym o) same)

  body_written :
      (i : ℕ) (h b : List ℕ) (s : Senders) (o : Outcome (Unit {0})) (c : Conn)
      → IsSerial codec sends start s
      → Framed codec (sends i) h b
      → s.holder ≡ some i
      → (write h (base codec sends start s)).0 ≡ ok tt
      → Same c (write b (write h (base codec sends start s)).1).1
      → IsSerial codec sends start (after_body i (o, c) s)
  unfolding after_body body_after
  body_written i h b s (ok u) c (all, free) f at fine same =
      gives codec sends start i (leaves none) s c at all (λ b' c'. tt)
        (ran i h b s (ok tt) c f fine same)
  body_written i h b s (err e) c (all, free) f at fine same =
      gives codec sends start i (leaves (some (wrap_error e "write error"))) s c at all
        (λ b' c'. tt) (ran i h b s (ok tt) c f fine same)
  body_written i h b s (panic p) c (all, free) f at fine same =
      gives codec sends start i (crashed p) s c at all (λ b' c'. tt)
        (ran i h b s (ok tt) c f fine same)

  starting :
      (i : ℕ) (s : Senders) (c : Conn) (empty : Bool) (head body : Outcome (List ℕ))
      → IsSerial codec sends start s
      → Same c s.conn
      → s.stages i ≡ starts
      → ((sends i).header.method == "") ≡ empty
      → codec.marshal_header (sends i).header ≡ head
      → codec.marshal (sends i).message ≡ body
      → IsSerial codec sends start (
          if empty
          then move i (ended (some (opaque "no method set"))) s
          else move i (marshalled codec (sends i).header head body) (record s { conn = c }))
  unfolding marshalled
  starting i s c true head body serial same at e m m' =
      advance codec sends start i _ s s.conn serial (refl, refl) (rw at refl) tt
  starting i s c false (ok head) (ok body) serial same at e m m' =
      advance codec sends start i _ s c serial same (rw at refl)
        (e, (head, body, m, m', refl, refl))
  starting i s c false (ok head) (err x) serial same at e m m' =
      advance codec sends start i _ s c serial same (rw at refl) tt
  starting i s c false (ok head) (panic p) serial same at e m m' =
      advance codec sends start i _ s c serial same (rw at refl) tt
  starting i s c false (err x) body serial same at e m m' =
      advance codec sends start i _ s c serial same (rw at refl) tt
  starting i s c false (panic p) body serial same at e m m' =
      advance codec sends start i _ s c serial same (rw at refl) tt

  set_until-Same : (d : Option ℕ) (c : Conn) → Same (set_until d c) c
  unfolding set_until
  set_until-Same none c = (refl, refl)
  set_until-Same (some t) c = (refl, refl)

  reset_until-Same : (d : Option ℕ) (c : Conn) → Same (reset_until d c) c
  unfolding reset_until
  reset_until-Same none c = (refl, refl)
  reset_until-Same (some t) c = (refl, refl)

  turn_at-IsSerial :
      (i : ℕ) (st : Stage) (s : Senders)
      → s.stages i ≡ st
      → IsSerial codec sends start s
      → IsSerial codec sends start (turn_at codec (sends i) i st s)
  unfolding turn_at marshal_body
  turn_at-IsSerial i starts s at serial =
      starting i s (set_until (sends i).deadline s.conn) _ _ _ serial (set_until-Same _ s.conn) at
        refl refl refl
  turn_at-IsSerial i (waits h b) s at (all, free) =
      takes codec sends start i h b s s.holder refl (all, free)
        (subst (λ q. Fits codec (sends i) i (base codec sends start s) s.conn s.holder q) at
          (all i))
  turn_at-IsSerial i (holds h b) s at (all, free) =
      let (f, has, same) =
        subst (λ q. Fits codec (sends i) i (base codec sends start s) s.conn s.holder q) at
          (all i) in
      let (o, same') = write-Same h s.conn (base codec sends start s) same in
      head_written i h b s (write h s.conn).0 (write h s.conn).1 (all, free) f has o same'
  turn_at-IsSerial i (wrote_head b) s at (all, free) =
      let (h, f, has, fine, same) =
        subst (λ q. Fits codec (sends i) i (base codec sends start s) s.conn s.holder q) at
          (all i) in
      let (o, same') = write-Same b s.conn (write h (base codec sends start s)).1 same in
      body_written i h b s (write b s.conn).0 (write b s.conn).1 (all, free) f has fine same'
  turn_at-IsSerial i (leaves e) s at serial =
      advance codec sends start i (ended e) s (reset_until (sends i).deadline s.conn) serial
        (reset_until-Same _ s.conn) (rw at refl) tt
  turn_at-IsSerial i (ended e) s at serial = serial
  turn_at-IsSerial i (crashed p) s at serial = serial

  run_turns-IsSerial :
      (schedule : List ℕ) (s : Senders)
      → IsSerial codec sends start s
      → IsSerial codec sends start (run_turns codec sends schedule s)
  unfolding run_turns
  run_turns-IsSerial [] s serial = serial
  run_turns-IsSerial (i ∷ is) s serial =
      run_turns-IsSerial is _ (turn_at-IsSerial i (s.stages i) s refl serial)

abbrev Standing : Codec → (ℕ → Sending) → Conn → Senders → Type 0
Standing codec sends c s =
    let ran = one_by_one codec sends s.released c in
    ((s.holder ≡ none) × Same s.conn ran)
    ⊎ ((i : ℕ) × (h : List ℕ) × (b : List ℕ) × (s.holder ≡ some i)
        × Framed codec (sends i) h b
        × (Same s.conn ran ⊎ (((write h ran).0 ≡ ok tt) × Same s.conn (write h ran).1)))

holding :
    (codec : Codec) (sends : ℕ → Sending) (c : Conn) (s : Senders) (i : ℕ) (st : Stage)
    → s.holder ≡ some i
    → Fits codec (sends i) i (base codec sends c s) s.conn s.holder st
    → inside st ≡ true
    → Standing codec sends c s
holding codec sends c s i (holds h b) at (f, has, same) in_lock = inr (i, h, b, at, f, inl same)
holding codec sends c s i (wrote_head b) at (h, f, has, fine, same) in_lock =
    inr (i, h, b, at, f, inr (fine, same))
holding codec sends c s i starts at f in_lock = elim (false≢true in_lock) [ ]
holding codec sends c s i (waits h b) at f in_lock = elim (false≢true in_lock) [ ]
holding codec sends c s i (leaves e) at f in_lock = elim (false≢true in_lock) [ ]
holding codec sends c s i (ended e) at f in_lock = elim (false≢true in_lock) [ ]
holding codec sends c s i (crashed p) at f in_lock = elim (false≢true in_lock) [ ]

standing :
    (codec : Codec) (sends : ℕ → Sending) (c : Conn) (s : Senders) (holder : Option ℕ)
    → s.holder ≡ holder
    → IsSerial codec sends c s
    → Standing codec sends c s
standing codec sends c s none at (all, free) = inl (at, subst (λ q. Free codec sends c q s) at free)
standing codec sends c s (some i) at (all, free) =
    holding codec sends c s i (s.stages i) at (all i) (subst (λ q. Free codec sends c q s) at free)

-- Goroutines call Send on one connection, with one lock, a message each; the schedule says in which
-- order they go on, and any Write may fail. `released` are the Sends that gave the lock back: none is
-- there twice, and each that has written all is there. While no one has the lock, these Sends, run one
-- after the other and each to its end, write the same bytes by the same calls of Write. While one
-- has it, that is so of these Sends, or of these and then the first Write of the one that has it, which
-- did not fail. So no frame stands inside another's.
pub run_turns-serial :
    (codec : Codec) (sends : ℕ → Sending) (schedule : List ℕ) (c : Conn) (i : ℕ)
    → let s = run_turns codec sends schedule (before c) in
      let ran = one_by_one codec sends s.released c in
      (((s.holder ≡ none) × Same s.conn ran)
        ⊎ ((k : ℕ) × (h : List ℕ) × (b : List ℕ) × (s.holder ≡ some k)
            × Framed codec (sends k) h b
            × (Same s.conn ran ⊎ (((write h ran).0 ≡ ok tt) × Same s.conn (write h ran).1))))
      × (occurs i s.released ≤ 1)
      × (written (s.stages i) ≤ occurs i s.released)
unfolding one_by_one
run_turns-serial codec sends schedule c i =
    let s = run_turns codec sends schedule (before c) in
    let (once, whole) = run_turns-once codec sends schedule c i in
    (
      standing codec sends c s s.holder refl
          (run_turns-IsSerial codec sends c schedule (before c) (λ j. tt, (refl, refl))),
      once,
      whole,
    )
