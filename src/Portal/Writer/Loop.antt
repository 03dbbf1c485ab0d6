-- ===== src/Portal/Writer/Loop.antt =====
-- portal/portal.go: the rule by which the loop of ReadFrom is reasoned about.
use http_portal.Base.{ℕ, zero, suc, ◌≤◌, ◌<◌, ◌≡◌, refl, Option, some, [], ◌∷◌, arith}
use http_portal.Core.Errors.{Error}
use http_portal.Core.Conn.{ok, err, panic}
use http_portal.Portal.Writer.{
  Writer, IoResult, Reader, piece, Round, returns, again, round, read_loop, reader_rounds,
}

reader_rounds-pos : (reader : Reader) → 0 < reader_rounds reader
unfolding reader_rounds
reader_rounds-pos [] = omega arith
reader_rounds-pos (piece bs e ∷ more) = omega arith

-- The loop ends, and with Q, where each round from P returns with Q or goes on with P and less to
-- read.
module _ (P : ℕ → ℕ → Reader → Writer → Type 0) (Q : ℕ → Option Error → Writer → Type 0) where
  abbrev pub Good : ℕ → Round → Type 0
  Good rounds (returns (ok (n, e), w)) = Q n e w
  Good rounds (returns (err e, w)) = ⊥
  Good rounds (returns (panic s, w)) = ⊥
  Good rounds (again has_read has_send reader w) =
      P has_read has_send reader w × (reader_rounds reader < rounds)

  abbrev pub Ends : Option IoResult → Type 0
  Ends r = (n : ℕ) × (e : Option Error) × (w : Writer) × (r ≡ some (ok (n, e), w)) × Q n e w

  module _
      (step : (has_read has_send : ℕ) (reader : Reader) (w : Writer)
        → P has_read has_send reader w
        → Good (reader_rounds reader) (round has_read has_send reader w)) where
    after_round :
        (fuel rounds : ℕ) (r : Round)
        → ((has_read has_send : ℕ) (reader : Reader) (w : Writer)
            → reader_rounds reader ≤ fuel
            → P has_read has_send reader w
            → Ends (read_loop fuel has_read has_send reader w))
        → Good rounds r
        → rounds ≤ suc fuel
        → Ends (elim r [
          | returns r ↦ some r
          | again has_read' has_send' reader' w' ↦ read_loop fuel has_read' has_send' reader' w'
        ])
    after_round fuel rounds (returns (ok (n, e), w)) ih g f = (n, e, w, refl, g)
    after_round fuel rounds (returns (err e, w)) ih g f = absurd g
    after_round fuel rounds (returns (panic s, w)) ih g f = absurd g
    after_round fuel rounds (again has_read has_send reader w) ih g f =
        ih has_read has_send reader w (omega arith) g.0

    pub read_loop_rule :
        (fuel has_read has_send : ℕ) (reader : Reader) (w : Writer)
        → reader_rounds reader ≤ fuel
        → P has_read has_send reader w
        → Ends (read_loop fuel has_read has_send reader w)
    unfolding read_loop
    read_loop_rule zero has_read has_send reader w f p =
        absurd (omega (arith, reader_rounds-pos reader))
    read_loop_rule (suc fuel) has_read has_send reader w f p =
        after_round fuel (reader_rounds reader) (round has_read has_send reader w)
          (read_loop_rule fuel) (step has_read has_send reader w p) f
