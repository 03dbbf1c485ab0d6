-- ===== src/Core/Errors.antt =====
-- core/net.go: NetError, newError, IsTemporary, IsClose, IsClosedNetworkError and CalcDelay.
pub mod Retry
pub mod Texts
use Prim.Native.String.{◌++◌}
use text.Mathlib.Text.{find?}
use http_portal.Base.{
  ℕ, ◌*◌, ◌<◌, String, Bool, true, false, not, Option, none, some, get_or, if◌then◌else◌, ltb, eqb,
}

-- The error values that the program meets. `opaque` has neither method (errors.New, errors.Errorf,
-- io.ErrUnexpectedEOF), `foreign` is an error of another package with a method Temporary, as those
-- of package net, `net_root` and `net` are *NetError without and with a cause, and `with_message`
-- is errors.WithMessage, which has Cause but not Temporary.
pub data Error : Type 0 where
  eof : Error
  opaque : String → Error
  foreign : String → Bool → Error
  net_root : String → Bool → Error
  net : Error → String → Bool → Error
  with_message : Error → String → Error

unfoldable pub error_text : Error → String
error_text eof = "EOF"
error_text (opaque msg) = msg
error_text (foreign msg t) = msg
error_text (net_root msg t) = msg
error_text (net e msg t) = msg ++ (": " ++ error_text e)
error_text (with_message e msg) = msg ++ (": " ++ error_text e)

-- The type assertion err.(Temporary), and the method's answer.
abbrev pub as_temporary : Error → Option Bool
as_temporary eof = none
as_temporary (opaque msg) = none
as_temporary (foreign msg t) = some t
as_temporary (net_root msg t) = some t
as_temporary (net e msg t) = some t
as_temporary (with_message e msg) = none

-- The type assertion e.(cause) of IsClose: some none is a Cause method that returns nil.
abbrev pub as_cause : Error → Option (Option Error)
as_cause eof = none
as_cause (opaque msg) = none
as_cause (foreign msg t) = none
as_cause (net_root msg t) = some none
as_cause (net e msg t) = some (some e)
as_cause (with_message e msg) = some (some e)

-- errors.Cause: the innermost error of a chain of causes. A Cause that returns nil ends the chain
-- in nil.
unfoldable pub innermost : Error → Option Error
innermost (net_root msg t) = none
innermost (net e msg t) = innermost e
innermost (with_message e msg) = innermost e
innermost eof = some eof
innermost (opaque msg) = some (opaque msg)
innermost (foreign msg t) = some (foreign msg t)

-- newError of an error that is not nil.
unfoldable pub wrap_error : Error → String → Error
wrap_error e message = net e message (get_or (as_temporary e) true)

unfoldable pub new_error : Option Error → String → Option Error
unfolding wrap_error
new_error none message = none
new_error (some e) message = some (wrap_error e message)

unfoldable pub is_temporary : Error → Bool
is_temporary e = elim (as_temporary e) [ some t ↦ t | none ↦ true ]

is_eof : Error → Bool
is_eof eof = true
is_eof _ = false

cause_is_eof : Option (Option Error) → Bool
unfolding is_eof
cause_is_eof (some (some e)) = is_eof e
cause_is_eof _ = false

unfoldable pub is_close : Error → Bool
unfolding is_temporary cause_is_eof
is_close e = if not (is_temporary e) then true else cause_is_eof (as_cause e)

unfoldable pub is_closed_network_error : Error → Bool
unfolding error_text
is_closed_network_error e = elim (find? (error_text e) "use of closed network connection") [
  | none ↦ false
  | some pos ↦ true
]

-- time.Duration in nanoseconds; the delays stay far below 2 ^ 63.
abbrev pub millisecond : ℕ
millisecond = 1_000_000

abbrev pub second : ℕ
second = 1_000_000_000

abbrev cap_delay : ℕ → ℕ
cap_delay d = if ltb (1 * second) d then 1 * second else d

unfoldable pub calc_delay : ℕ → ℕ
calc_delay temp_delay = cap_delay (if eqb temp_delay 0 then 20 * millisecond else temp_delay * 2)
