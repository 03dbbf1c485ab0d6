-- ===== src/Core/Errors/Texts.antt =====
-- core/net.go and package errors: that a text joined from two is not empty.
use Prim.Native.String.{String, ◌++◌, [], ◌∷◌}
use Prim.Native.String.append
use Prim.Native.String.compare
use http_portal.Base.{◌≡◌, refl, false, string_eq, ◌==◌}

pub append-nonempty : (s t : String) → (s == "") ≡ false → ((s ++ t) == "") ≡ false
append-nonempty [] t full = cc
append-nonempty (c ∷ s) t full = rw (append.cons c s t) (rw (compare.cons-nil c (s ++ t)) refl)

pub append-nonempty_end : (s t : String) → (t == "") ≡ false → ((s ++ t) == "") ≡ false
append-nonempty_end [] t full = rw (append.nil t) full
append-nonempty_end (c ∷ s) t full = rw (append.cons c s t) (rw (compare.cons-nil c (s ++ t)) refl)
