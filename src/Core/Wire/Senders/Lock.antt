-- ===== src/Core/Wire/Senders/Lock.antt =====
-- core/net.go: what holds of the goroutines that call Send with one lock, and how taking the lock and
-- giving it back keep it.
use http_portal.Base.{
  ℕ, ◌≡◌, refl, sym, ◌∙◌, subst, ◌≢◌, inl, inr, Bool, true, false, Option, none, some, List, [],
  ◌∷◌, ◌++◌, eqb, eqb_iff, Bool-cases, arith, string_eq,
}
use http_portal.Core.Conn.{Conn, ok, write}
use http_portal.Core.Wire.{Codec, send}
use http_portal.Core.Wire.Stream.{Sending}
use http_portal.Core.Wire.Senders.{
  Stage, starts, waits, holds, wrote_head, leaves, ended, crashed, Senders, move, acquire, release,
}
use http_portal.Core.Wire.Senders.Frame.{Same, Framed, one_by_one, one_by_one-snoc, Same-trans}

-- What holds of a goroutine i at this stage, where the Sends that gave the lock back, one after the
-- other, leave the connection `base`.
abbrev pub Fits : Codec → Sending → ℕ → Conn → Conn → Option ℕ → Stage → Type 0
Fits codec x i base conn holder (waits h b) = Framed codec x h b
Fits codec x i base conn holder (holds h b) =
    Framed codec x h b × (holder ≡ some i) × Same conn base
Fits codec x i base conn holder (wrote_head b) =
    (h : List ℕ) × Framed codec x h b
    × (holder ≡ some i)
    × ((write h base).0 ≡ ok tt)
    × Same conn (write h base).1
Fits _ _ _ _ _ _ _ = Unit {0}

-- The goroutine i is inside the lock.
abbrev pub inside : Stage → Bool
inside (holds h b) = true
inside (wrote_head b) = true
inside _ = false

module _ (codec : Codec) (sends : ℕ → Sending) (start : Conn) where
  abbrev pub base : Senders → Conn
  base s = one_by_one codec sends s.released start

  abbrev pub Free : Option ℕ → Senders → Type 0
  Free none s = Same s.conn (base s)
  Free (some i) s = inside (s.stages i) ≡ true

  abbrev pub IsSerial : Senders → Type 0
  IsSerial s =
      ((j : ℕ) → Fits codec (sends j) j (base s) s.conn s.holder (s.stages j)) × Free s.holder s

  -- Another goroutine fits as before, where the same is written and the lock has not changed hands.
  keeps :
      (x : Sending) (j : ℕ) (b c c' : Conn) (holder : Option ℕ) (st : Stage)
      → Same c' c
      → Fits codec x j b c holder st
      → Fits codec x j b c' holder st
  keeps x j b c c' holder starts same f = tt
  keeps x j b c c' holder (waits h t) same f = f
  keeps x j b c c' holder (holds h t) (o, w) (f, at, (o', w')) = (f, at, (o ∙ o', w ∙ w'))
  keeps x j b c c' holder (wrote_head t) (o, w) (h, f, at, fine, (o', w')) =
      (h, f, at, fine, (o ∙ o', w ∙ w'))
  keeps x j b c c' holder (leaves e) same f = tt
  keeps x j b c c' holder (ended e) same f = tt
  keeps x j b c c' holder (crashed p) same f = tt

  -- One that does not have the lock fits whatever is written and whoever gets the lock.
  pub outside :
      (x : Sending) (j : ℕ) (b c b' c' : Conn) (holder holder' : Option ℕ) (st : Stage)
      → holder ≢ some j
      → Fits codec x j b c holder st
      → Fits codec x j b' c' holder' st
  outside x j b c b' c' holder holder' starts free f = tt
  outside x j b c b' c' holder holder' (waits h t) free f = f
  outside x j b c b' c' holder holder' (holds h t) free (f, at, same) = elim (free at) [ ]
  outside x j b c b' c' holder holder' (wrote_head t) free (h, f, at, fine, same) =
      elim (free at) [ ]
  outside x j b c b' c' holder holder' (leaves e) free f = tt
  outside x j b c b' c' holder holder' (ended e) free f = tt
  outside x j b c b' c' holder holder' (crashed p) free f = tt

  -- The goroutine i is moved to a stage that fits; the others fit.
  pub moved :
      (i : ℕ) (st : Stage) (s : Senders)
      → Fits codec (sends i) i (base s) s.conn s.holder st
      → ((j : ℕ) → j ≢ i → Fits codec (sends j) j (base s) s.conn s.holder (s.stages j))
      → (j : ℕ) → Fits codec (sends j) j (base s) s.conn s.holder ((move i st s).stages j)
  unfolding move
  moved i st s mine others j = elim (Bool-cases (eqb j i)) [
    | inl same ↦ rw same (
        subst (λ k. Fits codec (sends k) k (base s) s.conn s.holder st) (sym ((eqb_iff j i).0 same))
          mine)
    | inr other ↦ rw other (others j (λ e. ground arith))
  ]

  -- A goroutine that is outside of the lock, and stays there.
  pub advance :
      (i : ℕ) (st : Stage) (s : Senders) (c : Conn)
      → IsSerial s
      → Same c s.conn
      → inside (s.stages i) ≡ false
      → Fits codec (sends i) i (base s) c s.holder st
      → IsSerial (move i st (record s { conn = c }))
  unfolding move
  advance i st s c (all, free) same away mine = (
    moved i st (record s { conn = c }) mine
        (λ j ne. keeps (sends j) j (base s) s.conn c s.holder (s.stages j) same (all j)),
    stay s.holder free,
  )
    where
      stay : (holder : Option ℕ) → Free holder s → Free holder (move i st (record s { conn = c }))
      stay none free' = Same-trans c s.conn (base s) same free'
      stay (some k) free' = elim (Bool-cases (eqb k i)) [
        | inl at ↦
            let still : inside (s.stages i) ≡ true =
              subst (λ q. inside (s.stages q) ≡ true) ((eqb_iff k i).0 at) free' in
            cc
        | inr off ↦ rw off free'
      ]

  pub takes :
      (i : ℕ) (h b : List ℕ) (s : Senders) (holder : Option ℕ)
      → s.holder ≡ holder
      → IsSerial s
      → Framed codec (sends i) h b
      → IsSerial (acquire i h b holder s)
  unfolding acquire move
  takes i h b s (some k) at serial f = serial
  takes i h b s none at (all, free) f =
      let free' : Same s.conn (base s) = subst (λ q. Free q s) at free in
      (
        moved i (holds h b) (record s { holder = some i }) (f, refl, free')
            (λ j ne.
              outside (sends j) j (base s) s.conn (base s) s.conn s.holder (some i) (s.stages j)
                (λ e. cc) (all j)),
        ground arith,
      )

  -- The goroutine i, which has the lock, gives it back; its Send was run to its end.
  pub gives :
      (i : ℕ) (st : Stage) (s : Senders) (c : Conn)
      → s.holder ≡ some i
      → ((j : ℕ) → Fits codec (sends j) j (base s) s.conn s.holder (s.stages j))
      → ((b c' : Conn) → Fits codec (sends i) i b c' none st)
      → Same c (send codec (sends i).deadline (sends i).header (some (sends i).message) (base s)).1
      → IsSerial (release i st (record s { conn = c }))
  unfolding release move
  gives i st s c at all mine same =
      let s' : Senders = record {
        conn = c;
        holder = none;
        stages = s.stages;
        released = s.released ++ i ∷ [];
      } in
      (
        moved i st s' (mine (base s') c) (λ j ne.
            outside (sends j) j (base s) s.conn (base s') c s.holder none (s.stages j) (λ e. ne cc)
              (all j)),
        rw (one_by_one-snoc codec sends s.released i start) same,
      )
