-- ===== src/Prelude/Text.antt =====
-- Texts that the program formats from parts.
use Prim.Native.String.{String, ◌++◌}
use mathlib.Core.List.{List, [], ◌∷◌}

abbrev pub concat : List String → String
concat [] = ""
concat (s ∷ parts) = s ++ concat parts
