-- ===== src/Kernel/Memory.antt =====
-- rwMem/sys.c: rwmem_read and rwmem_write, up to the copy of each piece of physical memory.
--
-- What the kernel says of a process is an argument: whether a process has the number, whether an
-- area allows the access, where a page of it lies, whether its entry allows the access, and whether
-- it can be made to. The result is the return value and the pieces that were copied.
pub mod Pieces
pub mod Answers
use rw_mem.Common.{
  ℕ, zero, suc, ◌+◌, ◌-◌, ◌%◌, ◌^◌, Bool, true, false, Option, none, some, List, [], ◌∷◌, ltb, leb,
  ◌==◌, if◌then◌else◌, take, drop, load, get_or, length, min,
}
use rw_mem.Common.Result.{Result, ok, err, einval, efault}

pub record PageTables : Type 0 where
  pub find_get_pid : ℕ → Bool
  pub check_proc_map : ℕ → ℕ → ℕ → Bool
  pub get_proc_phy_addr : ℕ → ℕ → ℕ
  pub is_pte_allowing : ℕ → ℕ → Bool
  pub change_pte_status : ℕ → ℕ → Bool

-- A copy between physical memory and the caller's buffer, from an offset behind its start.
pub record Piece : Type 0 where
  pub phy_addr : ℕ
  pub offset : ℕ
  pub size : ℕ

-- `size_inside_page` on pages of 4096 bytes.
unfoldable pub size_inside_page : ℕ → ℕ → ℕ
size_inside_page start size = min (4096 - start % 4096) size

-- Whether a round of the loop goes on to the copy.
unfoldable pub reaches : PageTables → ℕ → ℕ → Bool → Bool
reaches k pid address force =
    if k.get_proc_phy_addr pid address == 0
    then false
    else if k.is_pte_allowing pid address
    then true
    else if force
    then k.change_pte_status pid address
    else false

-- The loop with `done` bytes behind it: the bytes at the end, and the pieces.
unfoldable pub copy_loop : PageTables → ℕ → ℕ → Bool → ℕ → ℕ → ℕ → ℕ × List Piece
copy_loop k pid address force size zero done = (done, [])
copy_loop k pid address force size (suc fuel) done =
    let at = (address + done) % 2 ^ 64 in
    let phy_addr = k.get_proc_phy_addr pid at in
    let pfn_sz = size_inside_page phy_addr (min 4096 (size - done)) in
    let (total, pieces) = copy_loop k pid address force size fuel (done + pfn_sz) in
    if ltb done size
    then (if reaches k pid at force
        then (total, record { phy_addr = phy_addr; offset = done; size = pfn_sz } ∷ pieces)
        else (done, []))
    else (done, [])

-- A request once its 17 bytes have been read.
unfoldable pub serve : PageTables → ℕ → ℕ → Bool → ℕ → Result ℕ × List Piece
serve k pid address force size =
    let (total, pieces) = copy_loop k pid address force size size 0 in
    if k.find_get_pid pid
    then (if force
        then (ok total, pieces)
        else if k.check_proc_map pid address size
        then (ok total, pieces)
        else (err efault, []))
    else (err einval, [])

-- `rwmem_read` and `rwmem_write`, given the 17 bytes that stand first in the buffer, or none if they
-- cannot be copied. The two differ in which access is asked for, and in that the data of a write stand
-- behind the 17 bytes.
unfoldable pub transfer : PageTables → Option (List ℕ) → ℕ → Result ℕ × List Piece
transfer k none size = (err efault, [])
transfer k (some header) size =
    serve k (load (take 8 header) % 2 ^ 32) (load (take 8 (drop 8 header)))
      (get_or header 16 0 == 1) size
