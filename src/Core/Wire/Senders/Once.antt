-- ===== src/Core/Wire/Senders/Once.antt =====
-- core/net.go: which Sends have given the lock back, and how often.
use http_portal.Base.{
  ℕ, ◌+◌, ◌≤◌, ◌≡◌, refl, inl, inr, Bool, true, false, Option, none, some, List, [], ◌∷◌, ◌++◌, eqb,
  eqb_iff, Bool-cases, arith, ◌==◌, string_eq, if◌then◌else◌,
}
use http_portal.Core.Errors.{opaque}
use http_portal.Core.Messages.{RpcHeader}
use http_portal.Core.Conn.{Conn, Outcome, ok, err, panic, write}
use http_portal.Core.Wire.{Codec, marshal_body}
use http_portal.Core.Wire.Stream.{Sending}
use http_portal.Core.Wire.Senders.{
  Stage, starts, waits, holds, wrote_head, leaves, ended, crashed, Senders, before, move, set_until,
  reset_until, marshalled, acquire, release, after_head, after_body, turn_at, run_turns,
}

-- How often a number stands in a list.
unfoldable pub occurs : ℕ → List ℕ → ℕ
occurs i [] = 0
occurs i (j ∷ js) = (if eqb i j then 1 else 0) + occurs i js

-- 1 where the goroutine's Send has written all, and gave the lock back.
unfoldable pub written : Stage → ℕ
written (leaves none) = 1
written (ended none) = 1
written _ = 0

-- 0 where the goroutine has not given the lock back.
may_be_over : Stage → ℕ
may_be_over (leaves e) = 1
may_be_over (ended e) = 1
may_be_over (crashed p) = 1
may_be_over _ = 0

IsCounted : Senders → Type 0
IsCounted s =
    (j : ℕ)
    → (written (s.stages j) ≤ occurs j s.released)
      × (occurs j s.released ≤ may_be_over (s.stages j))

occurs-snoc :
    (i j : ℕ) (js : List ℕ) → occurs i (js ++ j ∷ []) ≡ occurs i js + (if eqb i j then 1 else 0)
unfolding occurs
occurs-snoc i j [] = omega arith
occurs-snoc i j (k ∷ js) = let h = occurs-snoc i j js in omega arith

move-IsCounted :
    (i : ℕ) (st : Stage) (s : Senders)
    → IsCounted s
    → written st ≤ written (s.stages i)
    → may_be_over (s.stages i) ≤ may_be_over st
    → IsCounted (move i st s)
unfolding IsCounted move
move-IsCounted i st s counted low high j = elim (Bool-cases (eqb j i)) [
  | inl at ↦
      let e : j ≡ i = (eqb_iff j i).0 at in
      let (low', high') = counted i in rw (at, e) (ground arith)
  | inr off ↦ rw off (counted j)
]

release-IsCounted :
    (i : ℕ) (st : Stage) (s : Senders)
    → IsCounted s
    → may_be_over (s.stages i) ≡ 0
    → written st ≤ 1
    → may_be_over st ≡ 1
    → IsCounted (release i st s)
unfolding IsCounted move release
release-IsCounted i st s counted high low high' j = elim (Bool-cases (eqb j i)) [
  | inl at ↦
      let e : j ≡ i = (eqb_iff j i).0 at in
      let (low'', high'') = counted i in rw (occurs-snoc, at, e) (ground arith)
  | inr off ↦ rw (occurs-snoc, off) (let (low'', high'') = counted j in ground arith)
]

marshalled-written :
    (codec : Codec) (h : RpcHeader) (head body : Outcome (List ℕ))
    → written (marshalled codec h head body) ≡ 0
unfolding written marshalled
marshalled-written codec h (ok head) (ok body) = refl
marshalled-written codec h (ok head) (err e) = refl
marshalled-written codec h (ok head) (panic p) = refl
marshalled-written codec h (err e) body = refl
marshalled-written codec h (panic p) body = refl

started-IsCounted :
    (i : ℕ) (st : Stage) (s : Senders) (c : Conn)
    → IsCounted s
    → s.stages i ≡ starts
    → written st ≡ 0
    → IsCounted (move i st (record s { conn = c }))
unfolding written may_be_over IsCounted
started-IsCounted i st s c counted at none_yet =
    move-IsCounted i st (record s { conn = c }) counted (rw none_yet (omega arith))
      (rw at (omega arith))

turn_at-IsCounted :
    (codec : Codec) (x : Sending) (i : ℕ) (st : Stage) (s : Senders)
    → s.stages i ≡ st
    → IsCounted s
    → IsCounted (turn_at codec x i st s)
unfolding turn_at written may_be_over IsCounted acquire after_head after_body
turn_at-IsCounted codec x i starts s at counted = tested (x.header.method == "")
  where
    made : Stage
    made =
        marshalled codec x.header (codec.marshal_header x.header)
          (marshal_body codec (some x.message))

    tested :
        (empty : Bool)
        → IsCounted (
            if empty
            then move i (ended (some (opaque "no method set"))) s
            else move i made (record s { conn = set_until x.deadline s.conn }))
    tested true =
        started-IsCounted i (ended (some (opaque "no method set"))) s s.conn counted at refl
    tested false =
        started-IsCounted i made s (set_until x.deadline s.conn) counted at
          (marshalled-written codec x.header _ _)
turn_at-IsCounted codec x i (waits h b) s at counted = acquired s.holder
  where
    acquired : (holder : Option ℕ) → IsCounted (acquire i h b holder s)
    acquired none =
        move-IsCounted i (holds h b) (record s { holder = some i }) counted (omega arith)
          (rw at (omega arith))
    acquired (some k) = counted
turn_at-IsCounted codec x i (holds h b) s at counted = wrote (write h s.conn).0 (write h s.conn).1
  where
    wrote : (o : Outcome (Unit {0})) (c : Conn) → IsCounted (after_head i b (o, c) s)
    wrote (ok u) c =
        move-IsCounted i (wrote_head b) (record s { conn = c }) counted (omega arith)
          (rw at (omega arith))
    wrote (err e) c =
        release-IsCounted i _ (record s { conn = c }) counted (rw at refl) (omega arith) refl
    wrote (panic p) c =
        release-IsCounted i _ (record s { conn = c }) counted (rw at refl) (omega arith) refl
turn_at-IsCounted codec x i (wrote_head b) s at counted =
    wrote (write b s.conn).0 (write b s.conn).1
  where
    wrote : (o : Outcome (Unit {0})) (c : Conn) → IsCounted (after_body i (o, c) s)
    wrote (ok u) c =
        release-IsCounted i _ (record s { conn = c }) counted (rw at refl) (omega arith) refl
    wrote (err e) c =
        release-IsCounted i _ (record s { conn = c }) counted (rw at refl) (omega arith) refl
    wrote (panic p) c =
        release-IsCounted i _ (record s { conn = c }) counted (rw at refl) (omega arith) refl
turn_at-IsCounted codec x i (leaves none) s at counted =
    move-IsCounted i (ended none) (record s { conn = reset_until x.deadline s.conn }) counted
      (rw at (omega arith)) (rw at (omega arith))
turn_at-IsCounted codec x i (leaves (some e)) s at counted =
    move-IsCounted i (ended (some e)) (record s { conn = reset_until x.deadline s.conn }) counted
      (rw at (omega arith)) (rw at (omega arith))
turn_at-IsCounted codec x i (ended e) s at counted = counted
turn_at-IsCounted codec x i (crashed p) s at counted = counted

run_turns-IsCounted :
    (codec : Codec) (sends : ℕ → Sending) (schedule : List ℕ) (s : Senders)
    → IsCounted s
    → IsCounted (run_turns codec sends schedule s)
unfolding run_turns
run_turns-IsCounted codec sends [] s counted = counted
run_turns-IsCounted codec sends (i ∷ is) s counted =
    run_turns-IsCounted codec sends is _
      (turn_at-IsCounted codec (sends i) i (s.stages i) s refl counted)

-- Whatever the schedule: no Send gives the lock back twice, and one that has written all has given
-- it back.
pub run_turns-once :
    (codec : Codec) (sends : ℕ → Sending) (schedule : List ℕ) (c : Conn) (i : ℕ)
    → let s = run_turns codec sends schedule (before c) in
      (occurs i s.released ≤ 1) × (written (s.stages i) ≤ occurs i s.released)
unfolding IsCounted may_be_over written occurs
run_turns-once codec sends schedule c i =
    let s = run_turns codec sends schedule (before c) in
    let (low, high) =
      run_turns-IsCounted codec sends schedule (before c) (λ j. (omega arith, omega arith)) i in
    (at_most (s.stages i) (occurs i s.released) high, low)
  where
    at_most : (st : Stage) (n : ℕ) → n ≤ may_be_over st → n ≤ 1
    at_most (leaves e) n h = h
    at_most (ended e) n h = h
    at_most (crashed p) n h = h
    at_most starts n h = omega arith
    at_most (waits a b) n h = omega arith
    at_most (holds a b) n h = omega arith
    at_most (wrote_head b) n h = omega arith
