-- ===== src/Common/Text.antt =====
-- Equality of texts as a Boolean test: Python's `==` on `str`.
use Prim.Native.String.{String}
use mathlib.Core.Logic.{ite, dite}
use mathlib.Core.Bool.{Bool, true, false, Bool-discrete}
use text.Mathlib.Text
use text.Mathlib.TextEquality.{eq_iff}

unfoldable pub string_discrete : Discrete String
string_discrete s t =
    dite (Bool-discrete (Text.◌==◌ s t) true) (λ same. yes ((eq_iff s t).0 same))
      (λ differ. no (λ p. differ ((eq_iff s t).1 p)))

-- In a proof a split on `str_eq s t` yields the equation or its negation.
abbrev pub str_eq : String → String → Bool
str_eq s t = ite (string_discrete s t) true false
