-- ===== src/Prelude/Text.antt =====
-- Texts as lists of bytes, and the equality test on them.
use Prim.Native.Nat.{ℕ}
use mathlib.Core.Path.{◌≡◌, refl}
use mathlib.Core.Bool.{Bool, true, false, ◌&&◌}
use mathlib.Core.List.{List, [], ◌∷◌}
use native.Mathlib.Omega.{arith}
use aiengine_rewritten_clean.Prelude.Tests.{◌==◌}

abbrev pub Bytes : Type 0
Bytes = List ℕ

unfoldable pub same : Bytes → Bytes → Bool
same [] [] = true
same [] (b ∷ bs) = false
same (a ∷ as') [] = false
same (a ∷ as') (b ∷ bs) = a == b && same as' bs

pub same-eq : (as' bs : Bytes) → same as' bs ≡ true → as' ≡ bs
unfolding same
same-eq [] [] h = refl
same-eq [] (b ∷ bs) h = cc
same-eq (a ∷ as') [] h = cc
same-eq (a ∷ as') (b ∷ bs) h = ground (arith, same-eq as' bs)

pub same_refl : (bs : Bytes) → same bs bs ≡ true
unfolding same
same_refl [] = refl
same_refl (b ∷ bs) = ground (arith, same_refl bs)
