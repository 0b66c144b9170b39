-- ===== src/Kernel/Transfer/Stores.antt =====
-- What rwmem_write of rwMem/sys.c leaves in physical memory, on every branch.
use rw_mem.Common.{
  ℕ, ◌+◌, ◌-◌, ◌%◌, ◌^◌, ◌≤◌, ◌<◌, ◌≡◌, ◌≢◌, refl, sym, ap, subst, ◌∙◌, ◌⊎◌, inl, inr, ◌==◌, Bool,
  false, List, length, length-drop, take, drop, load, get_or, arith, Bool-cases, ltb-false,
}
use rw_mem.Common.Result.{Result, ok, err, einval, efault}
use rw_mem.Kernel.Memory.{copy_loop}
use rw_mem.Kernel.Memory.Pieces.{Ends, Ends-le, copy_loop_lem}
use rw_mem.Kernel.Paging.{Ptes}
use rw_mem.Kernel.Paging.Laws.{IsPaged}
use rw_mem.Kernel.Transfer.{
  Kernel, check_proc_map_can_write, write_loop, write_request, rwmem_write,
}
use rw_mem.Kernel.Transfer.Bytes.{place}
use rw_mem.Kernel.Transfer.Entries.{IsLawful, AreSame, AreSame-refl, write_tables}
use rw_mem.Kernel.Transfer.Writes.{written, write_loop-Writes}
use rw_mem.Kernel.Transfer.Stored.{AreDistinct, Arrives, Arrives-same, written_in, written_out}

-- After a write every entry is as empty, points to the same page and can be written just as before; the
-- process's bytes from the address on, as far as the size or the first page that cannot be written, are
-- the data behind the 17 bytes where the copy of their piece is made, and as they were where it fails;
-- and no other byte of physical memory changes.
module _ (k : Kernel) (ptes : Ptes) (ram : ℕ → ℕ) (size : ℕ) where
  abbrev pub Stores : ℕ → ℕ → Bool → List ℕ → ℕ → Ptes → (ℕ → ℕ) → Type 0
  Stores pid address force input total ptes' ram' =
      AreSame k.arch ptes ptes'
      × Ends (write_tables k ptes) pid address force size total
      × (AreDistinct k ptes pid address 0 total
          → (i : ℕ) → i < total
          → Arrives k ptes pid address i (get_or input i 0) (ram (place k ptes pid address i))
              (ram' (place k ptes pid address i)))
      × ((x : ℕ) → ((i : ℕ) → i < total → place k ptes pid address i ≢ x) → ram' x ≡ ram x)

  abbrev pub Writes : ℕ → ℕ → Bool → List ℕ → Result ℕ × Ptes × (ℕ → ℕ) → Type 0
  Writes pid address force input r =
      ((k.tasks.find_get_pid pid ≡ false) × (r ≡ (err einval, ptes, ram)))
      ⊎ ((force ≡ false)
          × (check_proc_map_can_write k pid address size ≡ false)
          × (r ≡ (err efault, ptes, ram)))
      ⊎ ((total : ℕ) × (ptes' : Ptes) × (ram' : ℕ → ℕ) × (r ≡ (ok total, ptes', ram'))
          × Stores pid address force input total ptes' ram')

module _ (k : Kernel) (paged : IsPaged k.arch) (lawful : IsLawful k.arch) (ptes : Ptes)
    (ram : ℕ → ℕ) (size : ℕ) where
  write_loop-Stores :
      (pid address : ℕ) (force : Bool) (input : List ℕ)
      → size ≤ length input
      → let r = write_loop k pid address force size size 0 ptes input ram in
        Stores k ptes ram size pid address force input r.0 r.1 r.2
  write_loop-Stores pid address force input room =
      let r = write_loop k pid address force size size 0 ptes input ram in
      let tables = write_tables k ptes in
      let (total, ps) = copy_loop tables pid address force size size 0 in
      let (joined, ends) =
        copy_loop_lem tables pid address force size size 0 (omega arith) (omega arith) in
      let (count, same, memory) =
        write_loop-Writes k pid address force size lawful ptes size 0 ptes input ram
          (AreSame-refl k.arch ptes) (omega arith) in
      (
        same,
        subst (Ends tables pid address force size) (sym count) ends,
        λ distinct i h.
            Arrives-same k ptes pid address i (get_or input (i - 0) 0) (get_or input i 0)
              (ram (place k ptes pid address i)) (ram (place k ptes pid address i))
              (written k ram input ps (place k ptes pid address i))
              (r.2 (place k ptes pid address i))
              (ap (λ (x : ℕ). get_or input x 0) {x = i - 0} {y = i} (omega arith)) refl
              (ap (λ (m : ℕ → ℕ). m (place k ptes pid address i)) memory)
              (written_in k paged ptes pid address force 0 total ps input ram i joined
                (subst (AreDistinct k ptes pid address 0) count distinct)
                (omega (arith, Ends-le size total tables pid address force ends)) (omega arith)
                (omega (arith, count))),
        λ x out.
            ap (λ (m : ℕ → ℕ). m x) memory
            ∙ written_out k paged ptes pid address force 0 total ps input ram x joined
                (λ i a b. out i (omega (arith, count))),
      )

  write_request-Writes :
      (pid address : ℕ) (force : Bool) (input : List ℕ)
      → size ≤ length input
      → Writes k ptes ram size pid address force input
          (write_request k ram ptes pid address force input size)
  unfolding write_request
  write_request-Writes pid address force input room =
      let r = write_loop k pid address force size size 0 ptes input ram in
      let stored = write_loop-Stores pid address force input room in
      elim (Bool-cases (k.tasks.find_get_pid pid)) [
        | inr n ↦ inl (n, rw (n, write_request) refl)
        | inl y ↦ elim (Bool-cases force) [
          | inl f ↦ inr (inr (r.0, r.1, r.2, rw (y, f, write_request) refl, stored))
          | inr f ↦ elim (Bool-cases (check_proc_map_can_write k pid address size)) [
            | inr n ↦ inr (inl (f, n, rw (y, f, n, write_request) refl))
            | inl c ↦ inr (inr (r.0, r.1, r.2, rw (y, f, c, write_request) refl, stored))
          ]
        ]
      ]

  -- Where the tables are paged, making an entry writable and not is lawful, and the data are there:
  -- `rwmem_write` refuses a process that is not there and, without force, a range that no area allows.
  -- Else every entry is as empty, points to the same page and can be written just as before, and the
  -- bytes from the address on are counted, as far as the size or the first page that cannot be written.
  -- If no two of these lie at one place, each is the datum for it if its piece's range passes the check
  -- and the kernel maps it, and as it was if not. No other byte of physical memory changes.
  pub rwmem_write_lem :
      (buf : List ℕ)
      → 17 + size ≤ length buf
      → Writes k ptes ram size
          (load (take 8 buf) % 2 ^ 32)
          (load (take 8 (drop 8 buf)))
          (get_or buf 16 0 == 1)
          (drop 17 buf)
          (rwmem_write k ram ptes buf size)
  unfolding rwmem_write
  rwmem_write_lem buf room = rw (ltb-false (length buf) 17 (omega arith)) (
      write_request-Writes (load (take 8 buf) % 2 ^ 32) (load (take 8 (drop 8 buf)))
        (get_or buf 16 0 == 1) (drop 17 buf) (omega (arith, length-drop 17 buf)))
