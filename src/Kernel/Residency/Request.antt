-- ===== src/Kernel/Residency/Request.antt =====
-- IOCTL_CHECK_PROCESS_ADDR_PHY of rwMem/sys.c as a whole.
use rw_mem.Common.{
  ℕ, ◌+◌, ◌-◌, ◌*◌, ◌/◌, ◌%◌, ◌^◌, ◌≤◌, ◌<◌, ◌≡◌, refl, ap, ◌⊎◌, inl, inr, Bool, true, some, List,
  ltb, if◌then◌else◌, length, take, drop, replicate, load, arith, Bool-cases, ltb-false, leb-false,
  length-replicate, get_or-replicate,
}
use rw_mem.Common.Result.{ok}
use rw_mem.Kernel.Paging.{Arch, Ptes}
use rw_mem.Kernel.Residency.{
  check_loop, max_malloc_size, Tasks, check_range, is_resident, check_request, check_phy_ioctl,
}
use rw_mem.Kernel.Residency.Bitmap.{Holds, Copies-want}
use rw_mem.Kernel.Residency.Rounds.{zeros, wanted, bit_at_zeros, check_loop-Copies}

abbrev buf_len_of : ℕ → ℕ
buf_len_of wanted_len = if ltb max_malloc_size wanted_len then max_malloc_size else wanted_len

buf_len_fits :
    (pages : ℕ)
    → (buf_len_of ((pages + 7) / 8) ≡ 1024) ⊎ (0 + pages ≤ 8 * buf_len_of ((pages + 7) / 8))
buf_len_fits pages = elim (Bool-cases (ltb 1024 ((pages + 7) / 8))) [
  | inl y ↦ rw y (inl refl)
  | inr n ↦ rw n (inr (omega arith))
]

check_range-Holds :
    (resident : ℕ → Bool) (start end : ℕ) (mem : List ℕ)
    → start % 4096 ≡ 0
    → end % 4096 ≡ 0
    → start < end
    → end < 2 ^ 64
    → ((end - start) / 4096 + 7) / 8 ≤ length mem
    → (new : List ℕ) × (check_range resident true start end mem ≡ (ok ((end - start) / 4096), new))
      × Holds (λ p. resident (start + 4096 * p)) ((end - start) / 4096) mem new
unfolding check_range
check_range-Holds resident start end mem a b order top room =
    let pages = (end - start) / 4096 in
    let buf_len = buf_len_of ((pages + 7) / 8) in
    let buf = replicate buf_len 0 in
    let resident_at : ℕ → Bool = λ p. resident (start + 4096 * p) in
    let run = check_loop resident end buf_len pages start 0 buf mem in
    let (copied, h) =
      Copies-want (wanted resident end buf_len start 0 buf) resident_at (0 + pages) pages mem run
        (omega arith) (λ p l. rw (ltb-false p 0 (omega arith)) (ap resident (omega arith)))
        (check_loop-Copies resident end buf_len pages start 0 buf mem
          (length-replicate buf_len zeros) (λ j. omega (arith, get_or-replicate buf_len zeros j))
          (λ p l. bit_at_zeros resident end buf_len p) (omega arith) (ground arith)
          (buf_len_fits pages) (omega arith) (omega arith) top) in
    (run.1, rw copied refl, h)

check_request-Holds :
    (arch : Arch) (ptes : Ptes) (tasks : Tasks) (mem : List ℕ) (pid task start end : ℕ)
    → start % 4096 ≡ 0
    → end % 4096 ≡ 0
    → start < end
    → end < 2 ^ 64
    → tasks.find_get_pid pid ≡ true
    → tasks.pid_task pid ≡ some task
    → ((end - start) / 4096 + 7) / 8 ≤ length mem
    → (new : List ℕ) × (check_request arch ptes tasks true pid start end mem
        ≡ (ok ((end - start) / 4096), new))
      × Holds (λ p. is_resident arch ptes task (start + 4096 * p)) ((end - start) / 4096) mem new
unfolding check_request
check_request-Holds arch ptes tasks mem pid task start end a b order top found alive room =
    let (new, same, h) =
      check_range-Holds (is_resident arch ptes task) start end mem a b order top room in
    (new, rw (a, b, leb-false end start order, found, alive) same, h)

-- The request on whole pages of a process that is there, with room for its bits: it returns the count
-- of the pages, the bit of each says whether the page lies in physical memory and can be read, and the
-- memory behind the last byte of the bits stays as it was.
pub check_phy_ioctl_lem :
    (arch : Arch) (ptes : Ptes) (tasks : Tasks) (mem : List ℕ) (pid task start end : ℕ)
    → 24 ≤ length mem
    → load (take 4 mem) ≡ pid
    → load (take 8 (drop 8 mem)) ≡ start
    → load (take 8 (drop 16 mem)) ≡ end
    → start % 4096 ≡ 0
    → end % 4096 ≡ 0
    → start < end
    → end < 2 ^ 64
    → tasks.find_get_pid pid ≡ true
    → tasks.pid_task pid ≡ some task
    → ((end - start) / 4096 + 7) / 8 ≤ length mem
    → (new : List ℕ) × (check_phy_ioctl arch ptes tasks true mem ≡ (ok ((end - start) / 4096), new))
      × Holds (λ p. is_resident arch ptes task (start + 4096 * p)) ((end - start) / 4096) mem new
unfolding check_phy_ioctl
check_phy_ioctl_lem arch ptes tasks mem pid task start end long p s e a b order top found alive
      room =
    let (new, same, h) =
      check_request-Holds arch ptes tasks mem pid task start end a b order top found alive room in
    (new, rw (ltb-false (length mem) 24 long, p, s, e) same, h)
