-- ===== src/Kernel/Transfer/Reads.antt =====
-- What rwmem_read of rwMem/sys.c leaves in the caller's buffer, on every branch.
use rw_mem.Common.{
  ℕ, ◌+◌, ◌-◌, ◌%◌, ◌^◌, ◌≤◌, ◌<◌, ◌≡◌, refl, sym, ap, ap₂, subst, ◌∙◌, ◌⊎◌, inl, inr, ◌==◌, Bool,
  false, List, ◌++◌, length, take, drop, load, get_or, arith, get_or-append_lt, get_or-append_ge,
  get_or-drop, ltb-false,
}
use rw_mem.Common.Result.{Result, ok, err, einval, efault}
use rw_mem.Kernel.Memory.{Piece, serve}
use rw_mem.Kernel.Memory.Pieces.{AreJoined, Ends, Ends-le}
use rw_mem.Kernel.Memory.Answers.{Answers, serve-Answers}
use rw_mem.Kernel.Paging.{Ptes}
use rw_mem.Kernel.Paging.Laws.{IsPaged}
use rw_mem.Kernel.Transfer.{Kernel, check_proc_map_can_read, rwmem_read}
use rw_mem.Kernel.Transfer.Refines.{read_tables, contents, sizes}
use rw_mem.Kernel.Transfer.Bytes.{
  Comes, Comes-same, contents-place, length-contents, joined-sizes, pasted, read_request-serve,
}

abbrev zeros : ℕ
zeros = 0

-- What a read gives: as far as the size or as the first page that cannot be read, each byte of the process
-- from the address on, or what the buffer had there where the copy of the byte's piece fails; and the
-- rest of the buffer as it was.
module _ (k : Kernel) (ptes : Ptes) (ram : ℕ → ℕ) (buf : List ℕ) (size : ℕ) where
  abbrev pub Gives : ℕ → ℕ → Bool → ℕ → List ℕ → Type 0
  Gives pid address force total buf' =
      Ends (read_tables k ptes) pid address force size total
      × ((i : ℕ) → i < total → Comes k ptes pid address ram i (get_or buf i 0) (get_or buf' i 0))
      × ((i : ℕ) → total ≤ i → get_or buf' i 0 ≡ get_or buf i 0)

  -- A read on every branch; the entries are always as they were.
  abbrev pub Reads : ℕ → ℕ → Bool → Result ℕ × Ptes × List ℕ → Type 0
  Reads pid address force r =
      ((k.tasks.find_get_pid pid ≡ false) × (r ≡ (err einval, ptes, buf)))
      ⊎ ((force ≡ false)
          × (check_proc_map_can_read k pid address size ≡ false)
          × (r ≡ (err efault, ptes, buf)))
      ⊎ ((total : ℕ) × (buf' : List ℕ) × (r ≡ (ok total, ptes, buf'))
          × Gives pid address force total buf')

module _ (k : Kernel) (paged : IsPaged k.arch) (ptes : Ptes) (ram : ℕ → ℕ) (buf : List ℕ) (size : ℕ)
    (room : size ≤ length buf) where
  pasted-Gives :
      (pid address : ℕ) (force : Bool) (total : ℕ) (ps : List Piece)
      → AreJoined (read_tables k ptes) pid address force 0 total ps
      → Ends (read_tables k ptes) pid address force size total
      → Gives k ptes ram buf size pid address force total
          (contents k ram buf ps ++ drop (sizes ps) buf)
  pasted-Gives pid address force total ps joined ends =
      let sum = joined-sizes k paged ptes pid address force ram 0 total ps joined in
      let within : sizes ps ≤ length buf =
        omega (arith, sum, Ends-le size total (read_tables k ptes) pid address force ends) in
      let bytes = contents k ram buf ps in
      let len =
        length-contents k ram buf (read_tables k ptes) pid address 0 total force ps joined within in
      (
        ends,
        λ i h.
            Comes-same k ptes pid address ram (0 + i) i (get_or buf i 0) (get_or buf i 0)
              (get_or bytes i 0) (get_or (bytes ++ drop (sizes ps) buf) i 0) (omega arith) refl
              (get_or-append_lt bytes (drop (sizes ps) buf) i zeros (omega (arith, len, sum)))
              (contents-place k paged ptes pid address force ram 0 total ps buf joined within i
                (omega (arith, sum))),
        λ i h.
            get_or-append_ge bytes (drop (sizes ps) buf) i zeros (omega (arith, len, sum))
            ∙ get_or-drop (sizes ps) buf (i - length bytes) zeros
            ∙ ap (λ (j : ℕ). get_or buf j 0) {x = sizes ps + (i - length bytes)} {y = i}
                (omega (arith, len, sum)),
      )

  answered-Reads :
      (pid address : ℕ) (force : Bool) (r : Result ℕ) (ps : List Piece)
      → Answers (read_tables k ptes) pid address size force (r, ps)
      → Reads k ptes ram buf size pid address force (pasted k ram ptes buf (r, ps))
  answered-Reads pid address force r ps (inl (n, e, nil)) =
      inl (n, ap₂ (λ (x : Result ℕ) (l : List Piece). pasted k ram ptes buf (x, l)) e nil)
  answered-Reads pid address force r ps (inr (inl (f, c, e, nil))) =
      inr (inl (f, c, ap₂ (λ (x : Result ℕ) (l : List Piece). pasted k ram ptes buf (x, l)) e nil))
  answered-Reads pid address force r ps (inr (inr (total, e, joined, ends))) = inr (
      inr (
        total,
        contents k ram buf ps ++ drop (sizes ps) buf,
        ap (λ (x : Result ℕ). pasted k ram ptes buf (x, ps)) e,
        pasted-Gives pid address force total ps joined ends,
      ))

  -- Where the tables are paged and the buffer has the size and the 17 bytes: `rwmem_read` refuses a process
  -- that is not there and, without force, a range that no area allows; else it counts the bytes from the
  -- address on, as far as the size or the first page that cannot be read. Each of these is the process's
  -- byte in the buffer if its piece's range passes the check and the kernel buffers, maps and reads it,
  -- and what the buffer had there if not. The rest of the buffer and the page tables are as they were.
  pub rwmem_read_lem :
      17 ≤ length buf
      → Reads k ptes ram buf size
          (load (take 8 buf) % 2 ^ 32)
          (load (take 8 (drop 8 buf)))
          (get_or buf 16 0 == 1)
          (rwmem_read k ram ptes buf size)
  unfolding rwmem_read
  rwmem_read_lem long =
      let pid = load (take 8 buf) % 2 ^ 32 in
      let address = load (take 8 (drop 8 buf)) in
      let force = get_or buf 16 0 == 1 in
      let (r, ps) = serve (read_tables k ptes) pid address force size in
      rw (ltb-false (length buf) 17 long) (
        subst (Reads k ptes ram buf size pid address force)
          (sym (read_request-serve k ptes ram buf size room pid address force))
          (answered-Reads pid address force r ps
            (serve-Answers (read_tables k ptes) pid address force size)))
