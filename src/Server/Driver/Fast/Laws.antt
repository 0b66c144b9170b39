-- ===== src/Server/Driver/Fast/Laws.antt =====
-- The reads of CEServer/MemoryReaderWriter37.hpp that keep their buffer, beside the plain ones.
use rw_mem.Common.{
  ℕ, ◌+◌, ◌^◌, ◌≤◌, ◌<◌, ◌≡◌, refl, sym, ap, ◌∙◌, inl, inr, Bool, Option, none, some, List, ◌++◌,
  max, ltb, ◌==◌, if◌then◌else◌, length, take, drop, replicate, store, arith, Bool-cases,
  length-append, take-append_eq, leb-false, take_all, ltb→lt, length-drop, length-replicate,
}
use rw_mem.Server.Driver.Memory.{header, Transfer, read_done, driver_read_process_memory}
use rw_mem.Server.Driver.Fast.{read_buffer, fast_done, driver_read_process_memory_fast}

-- A call of `read` that puts data over the start of the buffer, or fails and leaves it as it is; which
-- of them is for the first 17 bytes and the size to say.
abbrev pub put_over : List ℕ → Option (List ℕ) → Transfer
put_over buf none = (none, buf)
put_over buf (some data_read) = (some (length data_read), data_read ++ drop (length data_read) buf)

pub record IsReader (sys_read : List ℕ → ℕ → Transfer) : Type 0 where
  pub answer_to : List ℕ → ℕ → Option (List ℕ)
  pub reads :
      (buf : List ℕ) (n : ℕ)
      → 17 ≤ length buf
      → n ≤ length buf
      → sys_read buf n ≡ put_over buf (answer_to (take 17 buf) n)

-- Two transfers end with the same count, and with the same bytes as far as the count.
abbrev pub AreAlike : Transfer → Transfer → Type 0
AreAlike (none, a) (r, b) = r ≡ none
AreAlike (some n, a) (r, b) = (r ≡ some n) × (take n a ≡ take n b)

pub length-header :
    (process address : ℕ) (force : Bool) → length (header process address force) ≡ 17
unfolding header store
length-header process address force = refl

pub first_bytes : (d rest : List ℕ) → take (length d) (d ++ rest) ≡ d
first_bytes d rest = take-append_eq (length d) d rest refl

both_done :
    (buffer buf buf' : List ℕ) (n : ℕ) (answer : Option (List ℕ))
    → AreAlike (fast_done buffer (put_over buf answer)) (read_done buffer n (put_over buf' answer))
unfolding read_done
both_done buffer buf buf' n none = refl
both_done buffer buf buf' n (some d) = elim (Bool-cases (length d == 0)) [
  | inl y ↦ rw y refl
  | inr m ↦
      let rest = drop (length d) buffer in
      let old = drop (length d) buf' in
      rw (m, first_bytes d (drop (length d) buf))
        (elim (Bool-cases (ltb n 17)) [
          | inl small ↦ rw (small, first_bytes d old) (refl, refl)
          | inr large ↦ rw large (refl, first_bytes d rest ∙ sym (first_bytes d old))
        ])
]

module _ (sys_read : List ℕ → ℕ → Transfer) (reader : IsReader sys_read) (process address : ℕ)
    (force : Bool) where
  abbrev head : List ℕ
  head = header process address force

  -- Whatever stands behind the 17 bytes, the call is answered as they say.
  reads_after :
      (rest : List ℕ) (n : ℕ)
      → n ≤ 17 + length rest
      → sys_read (head ++ rest) n ≡ put_over (head ++ rest) (reader.answer_to head n)
  reads_after rest n room =
      let long = length-header process address force in
      let both = length-append head rest in
      reader.reads (head ++ rest) n (omega arith) (omega arith)
      ∙ ap (λ (x : List ℕ). put_over (head ++ rest) (reader.answer_to x n))
          (take-append_eq 17 head rest (sym long))

  reads_alone : (n : ℕ) → n ≤ 17 → sys_read head n ≡ put_over head (reader.answer_to head n)
  reads_alone n room =
      let long = length-header process address force in
      reader.reads head n (omega arith) (omega arith)
      ∙ ap (λ (x : List ℕ). put_over head (reader.answer_to x n)) (take_all 17 head (omega arith))

  pub plain_buf :
      (buffer : List ℕ) (n : ℕ)
      → n ≤ length buffer
      → (buf' : List ℕ) × (sys_read (if ltb n 17 then head else head ++ drop 17 buffer) n
          ≡ put_over buf' (reader.answer_to head n))
  plain_buf buffer n room = elim (Bool-cases (ltb n 17)) [
    | inl y ↦ (head, rw y (reads_alone n (omega (arith, ltb→lt n 17 y))))
    | inr m ↦ (
      head ++ drop 17 buffer,
      rw m (reads_after (drop 17 buffer) n (omega (arith, length-drop 17 buffer))),
    )
  ]

  length-read_buffer : (kept : List ℕ) (n : ℕ) → n ≤ length (read_buffer kept n)
  unfolding read_buffer
  length-read_buffer kept n = elim (Bool-cases (ltb (length kept) n)) [
    | inl y ↦ rw y (omega (arith, length-replicate {A = ℕ} n 0))
    | inr m ↦
        rw m
          (omega (arith, length-replicate {A = ℕ} n 0, length-append (replicate n 0) (drop n kept)))
  ]

  -- On a driver whose `read` puts what it reads over the start of the buffer, the read that keeps its
  -- buffer, whatever it kept, ends with the count of the plain read and gives the same bytes, if the
  -- caller's buffer has the size that is asked for and that fits an `int`.
  pub driver_read_process_memory-fast :
      (kept buffer : List ℕ) (n : ℕ)
      → n ≤ length buffer
      → n < 2 ^ 31
      → (r : Transfer) × (kept' : List ℕ) × (driver_read_process_memory_fast sys_read kept process
            address buffer n force
          ≡ some (r, kept'))
        × AreAlike r (driver_read_process_memory sys_read process address buffer n force)
  unfolding driver_read_process_memory_fast driver_read_process_memory
  driver_read_process_memory-fast kept buffer n room small = elim (Bool-cases (address == 0)) [
    | inl y ↦ (
      (none, buffer),
      kept,
      rw (y, driver_read_process_memory_fast) refl,
      rw (y, driver_read_process_memory) refl,
    )
    | inr there ↦ elim (Bool-cases (process == 0)) [
      | inl y ↦ (
        (none, buffer),
        kept,
        rw (there, y, driver_read_process_memory_fast) refl,
        rw (there, y, driver_read_process_memory) refl,
      )
      | inr some_process ↦ elim (Bool-cases (n == 0)) [
        | inl y ↦ (
          (none, buffer),
          kept,
          rw (there, some_process, y, driver_read_process_memory_fast) refl,
          rw (there, some_process, y, driver_read_process_memory) refl,
        )
        | inr some_bytes ↦
            let fits : max 17 n < 2 ^ 31 = ground arith in
            let base = drop 17 (read_buffer kept (max 17 n)) in
            let (buf', plain) = plain_buf buffer n room in
            let fast = reads_after base n (
              ground (
                arith,
                length-drop 17 (read_buffer kept (max 17 n)),
                length-read_buffer kept (max 17 n),
              )) in
            (
              fast_done buffer (put_over (head ++ base) (reader.answer_to head n)),
              (put_over (head ++ base) (reader.answer_to head n)).1,
              rw
                  (
                    there,
                    some_process,
                    some_bytes,
                    leb-false (2 ^ 31) (max 17 n) fits,
                    fast,
                    driver_read_process_memory_fast,
                  )
                  refl,
              rw (there, some_process, some_bytes, plain, driver_read_process_memory)
                  (both_done buffer (head ++ base) buf' n (reader.answer_to head n)),
            )
      ]
    ]
  ]
