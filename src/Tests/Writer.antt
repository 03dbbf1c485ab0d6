-- ===== src/Tests/Writer.antt =====
-- portal/portal.go: HttpResponseWriter at concrete inputs.
use http_portal.Base.{
  ℕ, ◌+◌, ◌<◌, ◌≡◌, refl, ◌⊎◌, String, true, false, Option, none, some, List, [], ◌∷◌, arith, Text,
  ascii,
}
use http_portal.Core.Errors.{Error, opaque}
use http_portal.Core.Conn.{ok}
use http_portal.Core.Wire.{max_receive_size}
use http_portal.Portal.Writer.{
  Writer, Reader, piece, new_writer, write, flush, read_from, put, grow_buf, deliver,
  response_size_limit,
}
use http_portal.Portal.Writer.Bounds.{IsInside, write_total}
use http_portal.Portal.Writer.Overfull.{IsOverfull, read_from_cases}

-- Two pieces, of which the second ends in an error.
abbrev broken_reader : Reader
broken_reader = piece (1 ∷ 2 ∷ 3 ∷ []) none ∷ piece (4 ∷ []) (some (opaque "reset")) ∷ []

-- A writer over a small buffer, whose second message is refused.
abbrev small_writer : Writer
small_writer = record (new_writer 2 (none ∷ some (opaque "closed") ∷ [])) { buf = 9 ∷ [] }

abbrev plain_text : List (String × List Text)
plain_text = ("Content-Type", ascii "text/plain" ∷ []) ∷ []

-- The buffer grows from 2 to 4, and keeps what it had.
write_run : (write (7 ∷ 8 ∷ []) small_writer).1.buf ≡ 9 ∷ 7 ∷ 8 ∷ []
unfolding new_writer write put grow_buf flush
write_run = refl

-- A Flush that fails keeps the buffer, but the message is no first one any more: the status is gone.
flush_failed_run :
    let w = (flush true (record (new_writer 2 (some (opaque "closed") ∷ [])) { buf = 9 ∷ [] })).1 in
    (w.sent ≡ []) × (w.buf ≡ 9 ∷ []) × (w.first_send ≡ false)
unfolding new_writer flush deliver
flush_failed_run = (refl, refl, refl)

read_from_cases_example :
    ((1 < response_size_limit)
      × (n : ℕ) × (e : Option Error) × (w' : Writer) × (read_from broken_reader small_writer
          ≡ some (ok (n, e), w'))
      × IsInside w')
    ⊎ (response_size_limit < 1) × IsOverfull broken_reader small_writer
unfolding new_writer
read_from_cases_example = read_from_cases broken_reader small_writer (omega arith) (omega arith)

write_total_example :
    ((e : Option Error) × (w' : Writer) × (write (7 ∷ 8 ∷ []) small_writer ≡ (ok (2, e), w'))
      × IsInside w')
    ⊎ ((x : Error) × (write (7 ∷ 8 ∷ []) small_writer ≡ (ok (0, some x), small_writer))
        × (max_receive_size < small_writer.capacity + 2))
unfolding new_writer
write_total_example = write_total (7 ∷ 8 ∷ []) small_writer (omega arith)
