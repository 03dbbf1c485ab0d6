-- ===== src/Core/Errors/Retry.antt =====
-- core/net.go: how errors are classified, and the delays of a row of failures.
use http_portal.Base.{ℕ, zero, suc, ◌*◌, ◌^◌, ◌≤◌, ◌≡◌, refl, true, String, arith, min}
use native.Mathlib.Nat.{pow-suc}
use http_portal.Core.Errors.{
  Error, eof, wrap_error, is_temporary, is_close, calc_delay, millisecond, second,
}

-- The delay after n failures in a row, from no delay.
unfoldable pub delay_after : ℕ → ℕ
delay_after zero = 0
delay_after (suc n) = calc_delay (delay_after n)

-- Wrapping an error by newError, under any message, does not change what IsTemporary says of it; and
-- a wrapped io.EOF is a reason to close.
pub wrap_error_classified :
    (e : Error) (m : String)
    → (is_temporary (wrap_error e m) ≡ is_temporary e) × (is_close (wrap_error eof m) ≡ true)
unfolding wrap_error is_temporary is_close
wrap_error_classified e m = (ground arith, refl)

one-le-pow : (n : ℕ) → 1 ≤ 2 ^ n
one-le-pow zero = omega arith
one-le-pow (suc n) = omega (arith, pow-suc 2 n, one-le-pow n)

-- A row of failures waits 20 ms * 2 ^ n after failure n + 1, and 1 s where that is longer.
pub delay_after_lem : (n : ℕ) → delay_after (suc n) ≡ min (20 * millisecond * 2 ^ n) (1 * second)
unfolding delay_after calc_delay
delay_after_lem zero = refl
delay_after_lem (suc n) = ground (arith, delay_after_lem n, pow-suc 2 n, one-le-pow n)
