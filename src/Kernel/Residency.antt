-- ===== src/Kernel/Residency.antt =====
-- rwMem/sys.c: IOCTL_CHECK_PROCESS_ADDR_PHY, which pages of a range lie in physical memory.
--
-- The answer is a map of bits, handed over in buffers of at most 1024 bytes. User memory is the list
-- of the bytes that are mapped from the argument on; a copy fails where it ends, and what a failing
-- copy leaves is not modelled. What `kmalloc` answers is an argument.
pub mod Bitmap
pub mod Rounds
pub mod Request
use rw_mem.Common.{
  ℕ, zero, suc, ◌+◌, ◌-◌, ◌*◌, ◌/◌, ◌%◌, ◌^◌, Bool, true, false, not, ◌&&◌, Option, none, some,
  List, ◌++◌, ltb, leb, ◌==◌, if◌then◌else◌, length, take, drop, replicate, load, get_or, set,
  set_bit,
}
use rw_mem.Common.Result.{Result, ok, err, einval, efault, enomem}
use rw_mem.Kernel.Paging.{Arch, Ptes, get_task_proc_phy_addr, is_pte_can_read}

abbrev pub max_malloc_size : ℕ
max_malloc_size = 1024

-- `ret && is_pte_can_read(pte)` for the page of an address.
unfoldable pub is_resident : Arch → Ptes → ℕ → ℕ → Bool
unfolding get_task_proc_phy_addr is_pte_can_read
is_resident arch ptes task proc_virt_addr =
    let (ret, pte) = get_task_proc_phy_addr arch ptes (some task) proc_virt_addr in
    not (ret == 0) && is_pte_can_read arch ptes pte

-- `retBuf[i / 8] |= 1 << (i % 8)`
unfoldable pub mark_page : List ℕ → ℕ → List ℕ
mark_page ret_buf i = set ret_buf (i / 8) (set_bit (get_or ret_buf (i / 8) 0) (i % 8))

-- `x_copy_to_user` of the first bytes of a buffer to the start of the memory.
unfoldable pub copy_to_user : ℕ → List ℕ → List ℕ → Option (List ℕ)
copy_to_user n ret_buf mem =
    if ltb (length mem) n then none else some (take n ret_buf ++ drop n mem)

-- The copy behind the loop, if a bit is left: whether it was made, and the memory from `arg` on.
unfoldable pub last_copy : ℕ → List ℕ → List ℕ → Bool × List ℕ
unfolding copy_to_user
last_copy i ret_buf mem =
    if i == 0 then (true, mem) else elim (copy_to_user ((i + 7) / 8) ret_buf mem) [
      | none ↦ (false, mem)
      | some mem' ↦ (true, mem')
    ]

-- The loop over the pages, and what stands behind it. There is a round for each page of the range.
unfoldable pub check_loop : (ℕ → Bool) → ℕ → ℕ → ℕ → ℕ → ℕ → List ℕ → List ℕ → Bool × List ℕ
unfolding mark_page copy_to_user last_copy
check_loop resident end buf_len zero addr i ret_buf mem = last_copy i ret_buf mem
check_loop resident end buf_len (suc rounds) addr i ret_buf mem =
    let next = (addr + 4096) % 2 ^ 64 in
    let marked = if resident addr then mark_page ret_buf i else ret_buf in
    elim (ltb addr end) [
      | false ↦ last_copy i ret_buf mem
      | true ↦ elim (i + 1 == max_malloc_size * 8) [
        | false ↦ check_loop resident end buf_len rounds next (i + 1) marked mem
        | true ↦ elim (copy_to_user buf_len marked mem) [
          | none ↦ (false, mem)
          | some mem' ↦
              let (copied, rest) =
                check_loop resident end buf_len rounds next 0 (replicate buf_len 0)
                  (drop max_malloc_size mem') in
              (copied, take max_malloc_size mem' ++ rest)
        ]
      ]
    ]

-- What the request asks the kernel: whether a process has the number, and its task.
pub record Tasks : Type 0 where
  pub find_get_pid : ℕ → Bool
  pub pid_task : ℕ → Option ℕ

-- A range of whole pages, checked, with its buffer and its bits.
unfoldable pub check_range : (ℕ → Bool) → Bool → ℕ → ℕ → List ℕ → Result ℕ × List ℕ
unfolding check_loop
check_range resident kmalloc start end mem =
    let pages = (end - start) / 4096 in
    let wanted = (pages + 7) / 8 in
    let buf_len = if ltb max_malloc_size wanted then max_malloc_size else wanted in
    let (copied, mem') = check_loop resident end buf_len pages start 0 (replicate buf_len 0) mem in
    if kmalloc then (if copied then (ok pages, mem') else (err efault, mem')) else (err enomem, mem)

-- The request once its parameters are copied. The two tests of the addresses' low bits are one in the
-- code, of both addresses' bits together.
unfoldable pub check_request : Arch → Ptes → Tasks → Bool → ℕ → ℕ → ℕ → List ℕ → Result ℕ × List ℕ
unfolding check_range is_resident
check_request arch ptes tasks kmalloc pid start end mem =
    if not (start % 4096 == 0)
    then (err einval, mem)
    else if not (end % 4096 == 0)
    then (err einval, mem)
    else if leb end start
    then (err einval, mem)
    else if not (tasks.find_get_pid pid)
    then (err einval, mem)
    else elim (tasks.pid_task pid) [
      | none ↦ (err einval, mem)
      | some task ↦ check_range (is_resident arch ptes task) kmalloc start end mem
    ]

-- IOCTL_CHECK_PROCESS_ADDR_PHY: 24 bytes of parameters, of which four are padding.
unfoldable pub check_phy_ioctl : Arch → Ptes → Tasks → Bool → List ℕ → Result ℕ × List ℕ
check_phy_ioctl arch ptes tasks kmalloc mem =
    if ltb (length mem) 24
    then (err efault, mem)
    else check_request arch ptes tasks kmalloc (load (take 4 mem)) (load (take 8 (drop 8 mem)))
        (load (take 8 (drop 16 mem))) mem
