-- ===== src/Base/Headers.antt =====
-- http.Header of the Go library, whose keys are canonical here, and its Get, Add and Set.
use Prim.Native.String.{String}
use mathlib.Core.Option.{Option, some, get_or}
use mathlib.Core.List.{List, [], ◌∷◌, ◌++◌}
use http_portal.Base.Strings.{Text, string_eq}
use http_portal.Base.Maps.{lookup, insert}

abbrev pub Header : Type 0
Header = List (String × List Text)

first_value : Option (List Text) → Text
first_value (some (v ∷ vs)) = v
first_value _ = []

-- Header.Get: the first value of a key, or the empty text.
unfoldable pub header_get : String → Header → Text
unfolding first_value
header_get key header = first_value (lookup key header)

-- Header.Add
unfoldable pub header_add : String → Text → Header → Header
header_add key value header = insert key (get_or (lookup key header) [] ++ value ∷ []) header

-- Header.Set
unfoldable pub header_set : String → Text → Header → Header
header_set key value header = insert key (value ∷ []) header
