-- ===== src/Portal/Writer/Overfull.antt =====
-- portal/portal.go: ReadFrom of an HttpResponseWriter whose buffer a failed Flush has kept.
use http_portal.Base.{
  ℕ, suc, ◌+◌, ◌≤◌, ◌<◌, ◌≡◌, ◌≢◌, refl, ap, ◌⊎◌, inl, inr, true, Option, some, [], ◌∷◌, length,
  ltb, Bool-cases, arith,
}
use http_portal.Core.Errors.{Error, opaque}
use http_portal.Core.Conn.{ok, panic}
use http_portal.Core.Wire.{max_receive_size}
use http_portal.Portal.Writer.{
  Writer, IoResult, Reader, piece, returns, again, grow_buf, read_from, read_loop, round,
  once_grown, reader_rounds, response_size_limit, response_read_size, read_end,
}
use http_portal.Portal.Writer.Bounds.{IsInside, grow_buf-fits, read_from_total}

read_loop-suc :
    (fuel has_read has_send : ℕ) (reader : Reader) (w : Writer) (r : IoResult)
    → round has_read has_send reader w ≡ returns r
    → read_loop (suc fuel) has_read has_send reader w ≡ some r
unfolding read_loop
read_loop-suc fuel has_read has_send reader w r e =
    ap
      (λ q. elim q [
        | returns r' ↦ some r'
        | again has_read' has_send' reader' w' ↦ read_loop fuel has_read' has_send' reader' w'
      ])
      e

read_from-returns :
    (reader : Reader) (w : Writer) (r : IoResult)
    → round 0 (length w.buf) reader w ≡ returns r
    → read_from reader w ≡ some r
unfolding read_from reader_rounds
read_from-returns [] w r e = read_loop-suc 0 0 (length w.buf) [] w r e
read_from-returns (piece bs x ∷ more) w r e =
    read_loop-suc (length bs + reader_rounds more) 0 (length w.buf) (piece bs x ∷ more) w r e

-- growBuf refuses, or the slice that ReadFrom takes then ends before it starts.
abbrev pub IsOverfull : Reader → Writer → Type 0
IsOverfull reader w =
    ((read_from reader w ≡ some (ok (0, some (opaque "bytes.Buffer: too large")), w))
      × (max_receive_size < w.capacity + response_read_size))
    ⊎ ((w' : Writer) × (read_from reader w ≡ some (panic "slice bounds out of range", w'))
        × (w'.buf ≡ w.buf))

past_end :
    (w : Writer) → response_size_limit < length w.buf → ltb (read_end w) (length w.buf) ≡ true
past_end w h = ground arith

overfull :
    (reader : Reader) (w : Writer)
    → length w.buf ≤ w.capacity
    → response_size_limit < length w.buf
    → IsOverfull reader w
unfolding round once_grown
overfull reader w inside over =
    let (kept, ends) = grow_buf-fits response_read_size w inside in
    elim ends [
      | inl (grown, room) ↦
          let w' = (grow_buf response_read_size w).1 in
          inr (
            w',
            read_from-returns reader w (panic "slice bounds out of range", w')
                (rw (grown, past_end w' (rw kept over)) refl),
            kept,
          )
      | inr (same, big, tight) ↦ inl (
        read_from-returns reader w (ok (0, some (opaque "bytes.Buffer: too large")), w)
            (rw same refl),
        big,
      )
    ]

-- ReadFrom of a writer whose buffer lies inside its capacity and does not hold exactly
-- ResponseSizeLimit bytes, whatever the reader gives and whatever sendFunc answers. Where it holds
-- less, ReadFrom ends, without a panic and with a buffer inside its capacity. Where it holds more, as
-- a failed Flush behind a large Write leaves it, ReadFrom reads nothing: it panics with slice bounds out
-- of range, or returns ErrTooLarge, the latter only where the capacity is within ResponseReadSize of
-- MaxReceiveSize or above it.
pub read_from_cases :
    (reader : Reader) (w : Writer)
    → length w.buf ≤ w.capacity
    → length w.buf ≢ response_size_limit
    → ((length w.buf < response_size_limit)
        × (n : ℕ) × (e : Option Error) × (w' : Writer) × (read_from reader w ≡ some (ok (n, e), w'))
        × IsInside w')
      ⊎ (response_size_limit < length w.buf) × IsOverfull reader w
read_from_cases reader w inside not_at =
    elim (Bool-cases (ltb (length w.buf) response_size_limit)) [
      | inl low ↦
          let below : length w.buf < response_size_limit = ground arith in
          let (n, e, w', same, kept) =
            read_from_total reader w (record { inside = inside; below_limit = below }) in
          inl (below, n, e, w', same, kept)
      | inr high ↦
          let above : response_size_limit < length w.buf = ground arith in
          inr (above, overfull reader w inside above)
    ]
