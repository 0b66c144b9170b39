-- ===== src/Kernel/Transfer.antt =====
-- rwMem/sys.c and rwMem/proc_maps.h: rwmem_read and rwmem_write with the page tables, physical memory
-- and the caller's buffer.
--
-- `g_phy_total_memory_size` is an argument: whatever it is before the first copy, it is the same for
-- all later ones, or 0 for each.
pub mod Refines
pub mod Bytes
pub mod Entries
pub mod Writes
pub mod Stored
pub mod Reads
pub mod Stores
use rw_mem.Common.{
  ℕ, zero, suc, ◌+◌, ◌-◌, ◌%◌, ◌^◌, ◌==◌, Bool, true, false, not, ◌&&◌, Option, none, some, List,
  [], ◌++◌, ltb, leb, min, if◌then◌else◌, length, take, drop, load, get_or,
}
use rw_mem.Common.Result.{Result, ok, err, einval, efault}
use rw_mem.Kernel.Maps.{Vma}
use rw_mem.Kernel.Memory.{size_inside_page}
use rw_mem.Kernel.Paging.{
  Arch, Ptes, get_task_proc_phy_addr, is_pte_can_read, is_pte_can_write, change_pte_read_status,
  change_pte_write_status,
}
use rw_mem.Kernel.Physical.{Ram, read_ram_physical_addr, write_ram_physical_addr}
use rw_mem.Kernel.Residency.{Tasks}

-- All that the two calls ask of the kernel.
pub record Kernel : Type 0 where
  pub arch : Arch
  pub ram : Ram
  pub tasks : Tasks
  -- of a memory: the first area that ends above an address
  pub find_vma : ℕ → ℕ → Option Vma
  -- `g_phy_total_memory_size`
  pub total_memory : ℕ

-- `get_proc_phy_addr`
unfoldable pub get_proc_phy_addr : Kernel → Ptes → ℕ → ℕ → ℕ × ℕ
get_proc_phy_addr k ptes pid virt_addr = elim (k.tasks.pid_task pid) [
  | none ↦ (0, 0)
  | some task ↦ get_task_proc_phy_addr k.arch ptes (some task) virt_addr
]

-- `check_proc_map_can_read` and `check_proc_map_can_write`, which differ in the flag.
unfoldable pub check_proc_map : (Vma → Bool) → Kernel → ℕ → ℕ → ℕ → Bool
check_proc_map flag k pid proc_virt_addr size = elim (k.tasks.pid_task pid) [
  | none ↦ false
  | some task ↦ elim (k.arch.get_task_mm task) [
    | none ↦ false
    | some mm ↦ elim (k.find_vma mm proc_virt_addr) [
      | none ↦ false
      | some vma ↦ flag vma && leb ((proc_virt_addr + size) % 2 ^ 64) vma.vm_end
    ]
  ]
]

unfoldable pub check_proc_map_can_read : Kernel → ℕ → ℕ → ℕ → Bool
unfolding check_proc_map
check_proc_map_can_read = check_proc_map (λ v. v.vm_read)

unfoldable pub check_proc_map_can_write : Kernel → ℕ → ℕ → ℕ → Bool
unfolding check_proc_map
check_proc_map_can_write = check_proc_map (λ v. v.vm_write)

-- Before the copy: the entries as they are for it, or nothing where the loop ends.
unfoldable pub open_read : Arch → Ptes → ℕ → Bool → Option Ptes
open_read arch ptes pte force =
    let (changed, ptes') = change_pte_read_status ptes pte true in
    if is_pte_can_read arch ptes pte
    then some ptes
    else if force
    then (if changed then some ptes' else none)
    else none

unfoldable pub open_write : Arch → Ptes → ℕ → Bool → Option Ptes
open_write arch ptes pte force =
    let (changed, ptes') = change_pte_write_status arch ptes pte true in
    if is_pte_can_write arch ptes pte
    then some ptes
    else if force
    then (if changed then some ptes' else none)
    else none

-- Behind the copy, where the entry did not allow it before.
unfoldable pub close_read : Arch → Bool → Ptes → ℕ → Bool → Ptes
close_read arch old_pte_can_read ptes pte force =
    if force && not old_pte_can_read then (change_pte_read_status ptes pte false).1 else ptes

unfoldable pub close_write : Arch → Bool → Ptes → ℕ → Bool → Ptes
close_write arch old_pte_can_write ptes pte force =
    if force && not old_pte_can_write then (change_pte_write_status arch ptes pte false).1 else ptes

module _ (k : Kernel) (pid proc_virt_addr : ℕ) (force : Bool) (size : ℕ) where
  -- The loop of `rwmem_read` with `done` bytes behind it: `read_size` at the end, the entries, and the
  -- caller's memory from `buf + done` on. What `read_ram_physical_addr` returns is not looked at.
  unfoldable pub read_loop : (ℕ → ℕ) → ℕ → ℕ → Ptes → List ℕ → ℕ × Ptes × List ℕ
  read_loop ram zero done ptes buf = (done, ptes, buf)
  read_loop ram (suc fuel) done ptes buf =
      let (phy_addr, pte) = get_proc_phy_addr k ptes pid ((proc_virt_addr + done) % 2 ^ 64) in
      let old = is_pte_can_read k.arch ptes pte in
      let pfn_sz = size_inside_page phy_addr (min 4096 (size - done)) in
      elim (ltb done size) [
        | false ↦ (done, ptes, buf)
        | true ↦
            if phy_addr == 0 then (done, ptes, buf) else elim (open_read k.arch ptes pte force) [
              | none ↦ (done, ptes, buf)
              | some ptes' ↦
                  let (n, buf') =
                    read_ram_physical_addr k.ram k.total_memory ram phy_addr pfn_sz buf in
                  let closed = close_read k.arch old ptes' pte force in
                  let (total, ptes'', rest) =
                    read_loop ram fuel (done + pfn_sz) closed (drop pfn_sz buf') in
                  (total, ptes'', take pfn_sz buf' ++ rest)
            ]
      ]

  -- The loop of `rwmem_write`, with the caller's data from `done` on: `write_size` at the end, the entries, and physical memory.
  unfoldable pub write_loop : ℕ → ℕ → Ptes → List ℕ → (ℕ → ℕ) → ℕ × Ptes × (ℕ → ℕ)
  write_loop zero done ptes input ram = (done, ptes, ram)
  write_loop (suc fuel) done ptes input ram =
      let (phy_addr, pte) = get_proc_phy_addr k ptes pid ((proc_virt_addr + done) % 2 ^ 64) in
      let old = is_pte_can_write k.arch ptes pte in
      let pfn_sz = size_inside_page phy_addr (min 4096 (size - done)) in
      elim (ltb done size) [
        | false ↦ (done, ptes, ram)
        | true ↦
            if phy_addr == 0 then (done, ptes, ram) else elim (open_write k.arch ptes pte force) [
              | none ↦ (done, ptes, ram)
              | some ptes' ↦
                  let (n, ram') =
                    write_ram_physical_addr k.ram k.total_memory phy_addr pfn_sz input ram in
                  write_loop fuel (done + pfn_sz) (close_write k.arch old ptes' pte force)
                    (drop pfn_sz input) ram'
            ]
      ]

-- `rwmem_read` once the 17 bytes are copied: what it returns, the entries, and the caller's memory.
unfoldable pub read_request :
    Kernel → (ℕ → ℕ) → Ptes → ℕ → ℕ → Bool → List ℕ → ℕ → Result ℕ × Ptes × List ℕ
read_request k ram ptes pid proc_virt_addr is_force_read buf size =
    let (read_size, ptes', buf') =
      read_loop k pid proc_virt_addr is_force_read size ram size 0 ptes buf in
    if not (k.tasks.find_get_pid pid)
    then (err einval, ptes, buf)
    else if not is_force_read && not (check_proc_map_can_read k pid proc_virt_addr size)
    then (err efault, ptes, buf)
    else (ok read_size, ptes', buf')

unfoldable pub rwmem_read : Kernel → (ℕ → ℕ) → Ptes → List ℕ → ℕ → Result ℕ × Ptes × List ℕ
rwmem_read k ram ptes buf size =
    if ltb (length buf) 17
    then (err efault, ptes, buf)
    else read_request k ram ptes (load (take 8 buf) % 2 ^ 32) (load (take 8 (drop 8 buf)))
        (get_or buf 16 0 == 1) buf size

-- `rwmem_write` once the 17 bytes are copied: what it returns, the entries, and physical memory.
unfoldable pub write_request :
    Kernel → (ℕ → ℕ) → Ptes → ℕ → ℕ → Bool → List ℕ → ℕ → Result ℕ × Ptes × (ℕ → ℕ)
write_request k ram ptes pid proc_virt_addr is_force_write input size =
    let (write_size, ptes', ram') =
      write_loop k pid proc_virt_addr is_force_write size size 0 ptes input ram in
    if not (k.tasks.find_get_pid pid)
    then (err einval, ptes, ram)
    else if not is_force_write && not (check_proc_map_can_write k pid proc_virt_addr size)
    then (err efault, ptes, ram)
    else (ok write_size, ptes', ram')

unfoldable pub rwmem_write : Kernel → (ℕ → ℕ) → Ptes → List ℕ → ℕ → Result ℕ × Ptes × (ℕ → ℕ)
rwmem_write k ram ptes buf size =
    if ltb (length buf) 17
    then (err efault, ptes, ram)
    else write_request k ram ptes (load (take 8 buf) % 2 ^ 32) (load (take 8 (drop 8 buf)))
        (get_or buf 16 0 == 1) (drop 17 buf) size
