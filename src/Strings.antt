-- ===== src/Strings.antt =====
-- Literals of the source as texts.
use Prim.Native.Char.{code}
use Prim.Native.String.{String}
use conversation_service.Prelude.{[], ◌∷◌}
use conversation_service.Model.{Text}

-- The code points of a literal.
abbrev pub codes : String → Text
codes String.[] = []
codes (String.◌∷◌ c s) = code c ∷ codes s
