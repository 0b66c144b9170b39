-- ===== src/Common/Table.antt =====
-- `std::map` with numeric keys: an association list in the order of the keys.
use Prim.Native.Nat.{ℕ, ◌≤◌, ◌<◌}
use mathlib.Core.Path.{◌≡◌, refl}
use mathlib.Core.List.{List, [], ◌∷◌}
use mathlib.Core.Option.{Option, none, some}
use native.Mathlib.Omega.{arith}
use rw_mem.Common.Tests.{◌==◌, ltb, if◌then◌else◌}

module _ {ℓ} {V : Type ℓ} where
  -- `find` and `end`: `none` is the end iterator.
  abbrev pub lookup : ℕ → List (ℕ × V) → Option V
  lookup k [] = none
  lookup k ((j, v) ∷ m) = if j == k then some v else lookup k m

  -- `insert` leaves a key alone that is there already.
  abbrev pub insert : ℕ → V → List (ℕ × V) → List (ℕ × V)
  insert k v [] = (k, v) ∷ []
  insert k v ((j, w) ∷ m) =
      if j == k then (j, w) ∷ m else if ltb k j then (k, v) ∷ (j, w) ∷ m else (j, w) ∷ insert k v m

  abbrev pub erase : ℕ → List (ℕ × V) → List (ℕ × V)
  erase k [] = []
  erase k ((j, v) ∷ m) = if j == k then m else (j, v) ∷ erase k m

  -- The keys rise along the list, from above the bound.
  abbrev pub Above : ℕ → List (ℕ × V) → Type 0
  Above b [] = Unit
  Above b ((j, v) ∷ m) = (b < j) × Above j m

module _ {ℓ} {V : Type ℓ} where
  pub lookup-insert :
      (k j : ℕ) (v : V) (m : List (ℕ × V))
      → lookup k m ≡ none
      → lookup j (insert k v m) ≡ (if k == j then some v else lookup j m)
  lookup-insert k j v [] h = ground arith
  lookup-insert k j v ((i, w) ∷ m) h = ground (arith, lookup-insert k j v m)

  pub lookup_below : (b j : ℕ) (m : List (ℕ × V)) → Above b m → j ≤ b → lookup j m ≡ none
  lookup_below b j [] a h = refl
  lookup_below b j ((i, w) ∷ m) a h = ground (arith, lookup_below i j m a.1)

  pub lookup-erase :
      (b k j : ℕ) (m : List (ℕ × V))
      → Above b m
      → lookup j (erase k m) ≡ (if k == j then none else lookup j m)
  lookup-erase b k j [] a = ground arith
  lookup-erase b k j ((i, w) ∷ m) a =
      ground (arith, lookup-erase i k j m a.1, lookup_below i j m a.1)

  pub Above-mono : (b c : ℕ) (m : List (ℕ × V)) → b ≤ c → Above c m → Above b m
  Above-mono b c [] h a = tt
  Above-mono b c ((i, w) ∷ m) h a = (omega arith, a.1)

  pub insert-Above :
      (b k : ℕ) (v : V) (m : List (ℕ × V)) → b < k → Above b m → Above b (insert k v m)
  insert-Above b k v [] h a = (h, tt)
  insert-Above b k v ((i, w) ∷ m) h a = ground (arith, insert-Above i k v m)

  pub erase-Above : (b k : ℕ) (m : List (ℕ × V)) → Above b m → Above b (erase k m)
  erase-Above b k [] a = tt
  erase-Above b k ((i, w) ∷ m) a = ground (arith, erase-Above i k m a.1, Above-mono b i m)

  pub erase_absent : (k : ℕ) (m : List (ℕ × V)) → lookup k m ≡ none → erase k m ≡ m
  erase_absent k [] h = refl
  erase_absent k ((i, w) ∷ m) h = ground (arith, erase_absent k m)
