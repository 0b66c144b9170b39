-- ===== src/Server/Driver/Fast/Served.antt =====
-- What the server reads of a process's memory: CEServer/MemoryReaderWriter37.hpp on rwmem_read of
-- rwMem/sys.c.
use rw_mem.Common.{
  ℕ, ◌+◌, ◌^◌, ◌%◌, ◌≤◌, ◌<◌, ◌≡◌, ◌≢◌, refl, sym, ap, ap₂, subst, if◌then◌else◌, take, take_all,
  take-append_eq, length-append, length-drop, ltb→lt, ◌∙◌, ◌⊎◌, inl, inr, Bool, false, none, some,
  List, ◌++◌, ltb, ◌==◌, ==_iff, ==_false, length, drop, get_or, arith, Bool-cases,
  get_or-append_lt,
}
use rw_mem.Common.Result.{Result, ok}
use rw_mem.Kernel.Memory.{Piece, transfer}
use rw_mem.Kernel.Memory.Pieces.{Ends, Ends-le}
use rw_mem.Kernel.Memory.Answers.{Answers}
use rw_mem.Kernel.Paging.{Ptes}
use rw_mem.Kernel.Paging.Laws.{IsPaged}
use rw_mem.Kernel.Transfer.{Kernel, check_proc_map_can_read}
use rw_mem.Kernel.Transfer.Refines.{read_tables, contents, sizes}
use rw_mem.Kernel.Transfer.Bytes.{Comes, Comes-same, contents-place, length-contents, joined-sizes}
use rw_mem.Server.Driver.Memory.{header, Transfer, read_done, driver_read_process_memory}
use rw_mem.Server.Driver.Memory.Laws.{transfer-header}
use rw_mem.Server.Driver.Fast.Laws.{put_over, first_bytes, length-header}
use rw_mem.Server.Driver.Fast.Reader.{zeros, sys_read, pasted_read, sys_read-transfer}

-- The buffer that a read passes to the driver: the 17 bytes of the request, and what the caller's buffer
-- holds behind them.
abbrev pub request_buf : ℕ → ℕ → Bool → List ℕ → List ℕ
request_buf process address force buffer = header process address force ++ drop 17 buffer

module _ (k : Kernel) (ptes : Ptes) (ram : ℕ → ℕ) where
  -- What the server's read of a process's memory gives: nothing, if there is no such process, if no area
  -- allows it or if the first page cannot be read; else the bytes up to the size or to the
  -- first page that cannot be read, each the process's or, where its copy fails, the request buffer's.
  abbrev pub ReadsMemory : List ℕ → ℕ → ℕ → ℕ → Bool → Transfer → Type 0
  ReadsMemory request process address n force r =
      ((r.0 ≡ none)
        × ((k.tasks.find_get_pid (process % 2 ^ 32) ≡ false)
            ⊎ ((force ≡ false) × (check_proc_map_can_read k (process % 2 ^ 32) address n ≡ false))
            ⊎ Ends (read_tables k ptes) (process % 2 ^ 32) address force n 0))
      ⊎ ((total : ℕ) × (r.0 ≡ some total)
          × (0 < total)
          × Ends (read_tables k ptes) (process % 2 ^ 32) address force n total
          × ((i : ℕ)
              → i < total
              → Comes k ptes (process % 2 ^ 32) address ram i (get_or request i 0)
                  (get_or r.1 i 0)))

done_bytes :
    (buffer buf d : List ℕ) (n : ℕ)
    → length d ≢ 0
    → (rest : List ℕ) × (read_done buffer n (put_over buf (some d)) ≡ (some (length d), d ++ rest))
unfolding read_done
done_bytes buffer buf d n some_byte =
    let m = ==_false (length d) 0 some_byte in
    let old = drop (length d) buf in
    elim (Bool-cases (ltb n 17)) [
      | inl small ↦ (drop (length d) buffer, rw (m, small, first_bytes d old) refl)
      | inr large ↦ (old, rw (m, large) refl)
    ]

no_bytes :
    (buffer buf d : List ℕ) (n : ℕ)
    → length d ≡ 0
    → (read_done buffer n (put_over buf (some d))).0 ≡ none
unfolding read_done
no_bytes buffer buf d n e = rw e refl

-- The buffer that the driver gets begins with the request's bytes, and it is as long as the size.
sent_buf :
    (process address n : ℕ) (force : Bool) (buffer : List ℕ)
    → n ≤ length buffer
    → let head = header process address force in
      let buf = if ltb n 17 then head else head ++ drop 17 buffer in
      (take 17 buf ≡ head)
      × (17 ≤ length buf)
      × (n ≤ length buf)
      × ((i : ℕ) → i < n → get_or buf i 0 ≡ get_or (request_buf process address force buffer) i 0)
sent_buf process address n force buffer room =
    let head = header process address force in
    let long = length-header process address force in
    elim (Bool-cases (ltb n 17)) [
      | inl y ↦ rw y (
        take_all 17 head (omega (arith, long)),
        omega (arith, long),
        omega (arith, long, ltb→lt n 17 y),
        λ i h.
            sym
              (get_or-append_lt head (drop 17 buffer) i zeros (omega (arith, long, ltb→lt n 17 y))),
      )
      | inr m ↦ rw m (
        take-append_eq 17 head (drop 17 buffer) (sym long),
        omega (arith, long, length-append head (drop 17 buffer)),
        omega (arith, long, length-append head (drop 17 buffer), length-drop 17 buffer),
        λ i h. refl,
      )
    ]

module _ (k : Kernel) (paged : IsPaged k.arch) (ptes : Ptes) (ram : ℕ → ℕ) where
  done-ReadsMemory :
      (process address n : ℕ) (force : Bool) (buffer buf request : List ℕ)
      → n ≤ length buf
      → ((i : ℕ) → i < n → get_or buf i 0 ≡ get_or request i 0)
      → (r : Result ℕ) (ps : List Piece)
      → Answers (read_tables k ptes) (process % 2 ^ 32) address n force (r, ps)
      → ReadsMemory k ptes ram request process address n force
          (read_done buffer n (pasted_read k ptes ram buf (r, ps)))
  unfolding read_done
  done-ReadsMemory process address n force buffer buf request room agree r ps
        (inl (no_pid, e, nil)) =
      inl (
        ap (λ (x : Result ℕ). (read_done buffer n (pasted_read k ptes ram buf (x, ps))).0) e,
        inl no_pid,
      )
  done-ReadsMemory process address n force buffer buf request room agree r ps
        (inr (inl (f, c, e, nil))) =
      inl (
        ap (λ (x : Result ℕ). (read_done buffer n (pasted_read k ptes ram buf (x, ps))).0) e,
        inr (inl (f, c)),
      )
  done-ReadsMemory process address n force buffer buf request room agree r ps
        (inr (inr (total, e, joined, ends))) =
      let d = contents k ram buf ps in
      let pid = process % 2 ^ 32 in
      let tables = read_tables k ptes in
      let sum = joined-sizes k paged ptes pid address force ram 0 total ps joined in
      let most = Ends-le n total tables pid address force ends in
      let within : sizes ps ≤ length buf = omega (arith, sum, most) in
      let len = length-contents k ram buf tables pid address 0 total force ps joined within in
      let put : pasted_read k ptes ram buf (ok total, ps) ≡ put_over buf (some d) =
        ap₂ (λ (x y : ℕ). (some x, d ++ drop y buf)) {x = total} {y = length d}
          (omega (arith, len, sum)) (sym len) in
      subst
        (λ (x : Transfer).
          ReadsMemory k ptes ram request process address n force (read_done buffer n x))
        (sym (ap (λ (x : Result ℕ). pasted_read k ptes ram buf (x, ps)) e ∙ put))
        (elim (Bool-cases (length d == 0)) [
          | inl y ↦
              let empty : length d ≡ 0 = (==_iff (length d) 0).0 y in
              inl (
                no_bytes buffer buf d n empty,
                inr (
                    inr (
                      subst (Ends tables pid address force n) {x = total} {y = 0}
                        (omega (arith, len, sum, empty)) ends)),
              )
          | inr m ↦
              let (rest, same) = done_bytes buffer buf d n (λ z. ground arith) in
              inr (
                total,
                ap (λ (t : Transfer). t.0) same ∙ ap some (omega (arith, len, sum)),
                ground arith,
                ends,
                λ i h.
                    Comes-same k ptes pid address ram (0 + i) i (get_or buf i 0)
                      (get_or request i 0) (get_or d i 0)
                      (get_or (read_done buffer n (put_over buf (some d))).1 i 0) (omega arith)
                      (agree i (omega (arith, most)))
                      (ap (λ (t : Transfer). get_or t.1 i 0) same
                        ∙ get_or-append_lt d rest i zeros (omega (arith, len, sum)))
                      (contents-place k paged ptes pid address force ram 0 total ps buf joined
                        within i (omega (arith, sum))),
              )
        ])

  -- Where the tables are paged, the server's read of a process's memory through `rwmem_read` gives, for a
  -- process, an address and a size that are not 0 and a buffer that has the size, the bytes from the
  -- address on, up to the size or the first page that cannot be read; or nothing, if there is no such
  -- process, no area allows it, or not even the first byte can be read. Each byte is the process's if
  -- its piece's range passes the check and the kernel copies it. If not, it is counted all the same, and
  -- is what the buffer of the request had there: the request's 17 bytes and the caller's behind them.
  pub driver_read_process_memory-ReadsMemory :
      (process address : ℕ) (buffer : List ℕ) (n : ℕ) (force : Bool)
      → process ≢ 0
      → process < 2 ^ 64
      → address ≢ 0
      → address < 2 ^ 64
      → n ≢ 0
      → n ≤ length buffer
      → ReadsMemory k ptes ram
          (request_buf process address force buffer)
          process
          address
          n
          force
          (driver_read_process_memory (sys_read k ram ptes) process address buffer n force)
  unfolding driver_read_process_memory
  driver_read_process_memory-ReadsMemory process address buffer n force p small a near some_bytes
        room =
      let head = header process address force in
      let buf = if ltb n 17 then head else head ++ drop 17 buffer in
      let (first, long, large, agree) = sent_buf process address n force buffer room in
      let (r, ps) = transfer (read_tables k ptes) (some head) n in
      let same : sys_read k ram ptes buf n ≡ pasted_read k ptes ram buf (r, ps) =
        sys_read-transfer k ptes ram buf n long large
        ∙ ap (λ (h : List ℕ). pasted_read k ptes ram buf (transfer (read_tables k ptes) (some h) n))
            first in
      rw
        (
          ==_false address 0 a,
          ==_false process 0 p,
          ==_false n 0 some_bytes,
          same,
          driver_read_process_memory,
        )
        (done-ReadsMemory process address n force buffer buf
          (request_buf process address force buffer) large agree r ps
          (transfer-header (read_tables k ptes) process address n force small near))
