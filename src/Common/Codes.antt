-- ===== src/Common/Codes.antt =====
-- Equality and order of texts that are lists of code points: Python's `==` and `<` on `str`.
use Prim.Native.Nat.{ℕ}
use mathlib.Core.Path.{◌≡◌, refl, ap₂}
use mathlib.Core.Bool.{Bool, true, false, ◌&&◌, ◌||◌}
use mathlib.Core.List.{List, [], ◌∷◌}
use native.Mathlib.Omega.{arith}
use jornada_link.Common.Tests.{◌==◌, ltb}

unfoldable pub text_eq : List ℕ → List ℕ → Bool
text_eq [] [] = true
text_eq [] (d ∷ ds) = false
text_eq (c ∷ cs) [] = false
text_eq (c ∷ cs) (d ∷ ds) = (c == d) && text_eq cs ds

unfoldable pub text_lt : List ℕ → List ℕ → Bool
text_lt [] [] = false
text_lt [] (d ∷ ds) = true
text_lt (c ∷ cs) [] = false
text_lt (c ∷ cs) (d ∷ ds) = ltb c d || ((c == d) && text_lt cs ds)

same_head : (c d : ℕ) (b : Bool) → ((c == d) && b) ≡ true → (c ≡ d) × (b ≡ true)
same_head c d b h = ground arith

pub text_eq→≡ : (cs ds : List ℕ) → text_eq cs ds ≡ true → cs ≡ ds
unfolding text_eq
text_eq→≡ [] [] h = refl
text_eq→≡ [] (d ∷ ds) h = ground arith
text_eq→≡ (c ∷ cs) [] h = ground arith
text_eq→≡ (c ∷ cs) (d ∷ ds) h =
    let (e, later) = same_head c d (text_eq cs ds) h in ap₂ (◌∷◌) e (text_eq→≡ cs ds later)
