-- ===== src/Common/Strings.antt =====
-- C strings and `std::string` as lists of bytes.
use Prim.Native.Nat.{ℕ}
use mathlib.Core.Path.{◌≡◌, refl}
use mathlib.Core.Bool.{Bool, true, false, ◌&&◌}
use mathlib.Core.List.{List, [], ◌∷◌}
use native.Mathlib.Omega.{arith}
use rw_mem.Common.Tests.{◌==◌}

-- `strcmp(a, b) == 0`
abbrev pub str_eq : List ℕ → List ℕ → Bool
str_eq [] [] = true
str_eq [] (d ∷ ds) = false
str_eq (c ∷ cs) [] = false
str_eq (c ∷ cs) (d ∷ ds) = (c == d) && str_eq cs ds

pub str_eq-eq : (a b : List ℕ) → str_eq a b ≡ true → a ≡ b
str_eq-eq [] [] h = refl
str_eq-eq [] (d ∷ ds) h = cc
str_eq-eq (c ∷ cs) [] h = cc
str_eq-eq (c ∷ cs) (d ∷ ds) h = ground (arith, str_eq-eq cs ds)

pub str_eq_self : (a : List ℕ) → str_eq a a ≡ true
str_eq_self [] = refl
str_eq_self (c ∷ cs) = ground (arith, str_eq_self cs)

pub str_eq_comm : (a b : List ℕ) → str_eq a b ≡ str_eq b a
str_eq_comm [] [] = refl
str_eq_comm [] (d ∷ ds) = refl
str_eq_comm (c ∷ cs) [] = refl
str_eq_comm (c ∷ cs) (d ∷ ds) = ground (arith, str_eq_comm cs ds)
