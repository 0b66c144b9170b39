-- ===== src/Server/Driver/Fast/Writes.antt =====
-- The writes of CEServer/MemoryReaderWriter37.hpp that keep their buffer, beside the plain ones.
use rw_mem.Common.{
  ℕ, ◌+◌, ◌^◌, ◌≤◌, ◌≡◌, refl, sym, ap, ◌∙◌, inl, inr, Bool, Option, none, some, leb, List, ◌++◌,
  ◌==◌, length, take, drop, arith, Bool-cases, length-append, take-append_eq, take_all, length-take,
  append_assoc,
}
use rw_mem.Server.Driver.Memory.{header, is_positive, driver_write_process_memory}
use rw_mem.Server.Driver.Fast.{write_buffer, driver_write_process_memory_fast}
use rw_mem.Server.Driver.Fast.Laws.{length-header}

-- A call of `write` reads no more than the 17 bytes and the data.
abbrev pub IsWriter : (List ℕ → ℕ → Option ℕ) → Type 0
IsWriter sys_write =
    (a b : List ℕ) (n : ℕ) → take (17 + n) a ≡ take (17 + n) b → sys_write a n ≡ sys_write b n

same_front :
    (head sent rest : List ℕ) (n : ℕ)
    → length head ≡ 17
    → length sent ≡ n
    → take (17 + n) (head ++ (sent ++ rest)) ≡ take (17 + n) (head ++ sent)
same_front head sent rest n a b =
    let both = length-append head sent in
    ap (take (17 + n)) (sym (append_assoc head sent rest))
    ∙ take-append_eq (17 + n) (head ++ sent) rest (omega arith)
    ∙ sym (take_all (17 + n) (head ++ sent) (omega arith))

-- How a write that keeps its buffer ends, without the buffer.
abbrev pub outcome : Option (Option ℕ × List ℕ) → Option (Option ℕ)
outcome none = none
outcome (some (r, kept)) = some r

module _ (sys_write : List ℕ → ℕ → Option ℕ) (writer : IsWriter sys_write) where
  -- The write that keeps its buffer, whatever it kept, ends as the plain write does, with its count or
  -- with its fault, if the caller's buffer has the size that is asked for and `write` reads no more than
  -- the 17 bytes and the data.
  pub driver_write_process_memory-fast :
      (kept : List ℕ) (process address : ℕ) (buffer : List ℕ) (n : ℕ) (force : Bool)
      → n ≤ length buffer
      → outcome (driver_write_process_memory_fast sys_write kept process address buffer n force)
        ≡ driver_write_process_memory sys_write process address buffer n force
  unfolding driver_write_process_memory_fast driver_write_process_memory
  driver_write_process_memory-fast kept process address buffer n force room =
      let head = header process address force in
      let rest = drop (n + 17) (write_buffer kept (n + 17)) in
      let same : sys_write (head ++ (take n buffer ++ rest)) n
          ≡ sys_write (head ++ take n buffer) n =
        writer (head ++ (take n buffer ++ rest)) (head ++ take n buffer) n (
          same_front head (take n buffer) rest n (length-header process address force)
            (omega (arith, length-take n buffer))) in
      elim (Bool-cases (address == 0)) [
        | inl y ↦ simp y refl
        | inr there ↦ elim (Bool-cases (process == 0)) [
          | inl y ↦ simp (there, y) refl
          | inr some_process ↦ elim (Bool-cases (n == 0)) [
            | inl y ↦ simp (there, some_process, y) refl
            | inr some_bytes ↦ elim (Bool-cases (leb (2 ^ 31) (n + 17))) [
              | inl y ↦ simp (there, some_process, some_bytes, y) refl
              | inr small ↦ elim (Bool-cases (is_positive (sys_write (head ++ take n buffer) n))) [
                | inl y ↦ simp (there, some_process, some_bytes, small, same, y) refl
                | inr m ↦ simp (there, some_process, some_bytes, small, same, m) refl
              ]
            ]
          ]
        ]
      ]
