-- ===== src/Kernel/Paging.antt =====
-- rwMem/phy_mem.h: the walk through the page tables, and the status of an entry.
--
-- What the kernel's headers give for the tables is an argument: where each level's entry for an
-- address stands, whether it is empty, and what an entry of the lowest level says. These entries are
-- words in memory, a function from pointers, and can be changed; pointer 0 is NULL.
pub mod Laws
use rw_mem.Common.{
  ℕ, ◌+◌, ◌%◌, ◌==◌, Bool, true, false, not, ◌&&◌, Option, none, some, if◌then◌else◌, bit_or,
}

pub record Arch : Type 0 where
  pub get_task_mm : ℕ → Option ℕ
  pub pgd_offset : ℕ → ℕ → ℕ
  pub pgd_none : ℕ → Bool
  pub p4d_offset : ℕ → ℕ → ℕ
  pub p4d_none : ℕ → Bool
  pub pud_offset : ℕ → ℕ → ℕ
  pub pud_none : ℕ → Bool
  pub pmd_offset : ℕ → ℕ → ℕ
  pub pmd_none : ℕ → Bool
  pub pte_offset_kernel : ℕ → ℕ → ℕ
  pub pte_none : ℕ → Bool
  -- `page_to_phys(pte_page(pte))`
  pub page_to_phys : ℕ → ℕ
  -- the macro, where it is defined
  pub pte_read : Option (ℕ → Bool)
  pub pte_write : ℕ → Bool
  pub pte_mkwrite : ℕ → ℕ
  pub pte_wrprotect : ℕ → ℕ

-- The lowest entries.
abbrev pub Ptes : Type 0
Ptes = ℕ → ℕ

abbrev pub set_pte : Ptes → ℕ → ℕ → Ptes
set_pte ptes pte value p = if pte == p then value else ptes p

-- The walk of `get_task_proc_phy_addr` from a memory's top table down: the pointer to the lowest
-- entry, or nothing where a level has none.
unfoldable pub find_pte : Arch → Ptes → ℕ → ℕ → Option ℕ
find_pte arch ptes mm virt_addr =
    let pgd = arch.pgd_offset mm virt_addr in
    let p4d = arch.p4d_offset pgd virt_addr in
    let pud = arch.pud_offset p4d virt_addr in
    let pmd = arch.pmd_offset pud virt_addr in
    let pte = arch.pte_offset_kernel pmd virt_addr in
    if pgd == 0
    then none
    else if arch.pgd_none pgd
    then none
    else if arch.p4d_none p4d
    then none
    else if arch.pud_none pud
    then none
    else if arch.pmd_none pmd
    then none
    else if arch.pte_none (ptes pte)
    then none
    else some pte

-- `get_task_proc_phy_addr`: the physical address, and what it stores in `out_pte`.
unfoldable pub get_task_proc_phy_addr : Arch → Ptes → Option ℕ → ℕ → ℕ × ℕ
get_task_proc_phy_addr arch ptes none virt_addr = (0, 0)
get_task_proc_phy_addr arch ptes (some task) virt_addr = elim (arch.get_task_mm task) [
  | none ↦ (0, 0)
  | some mm ↦ elim (find_pte arch ptes mm virt_addr) [
    | none ↦ (0, 0)
    | some pte ↦ (bit_or (arch.page_to_phys (ptes pte)) (virt_addr % 4096), pte)
  ]
]

-- `is_pte_can_read`
unfoldable pub is_pte_can_read : Arch → Ptes → ℕ → Bool
is_pte_can_read arch ptes pte =
    if pte == 0 then false else elim arch.pte_read [ none ↦ true | some read ↦ read (ptes pte) ]

-- `is_pte_can_write`
unfoldable pub is_pte_can_write : Arch → Ptes → ℕ → Bool
is_pte_can_write arch ptes pte = not (pte == 0) && arch.pte_write (ptes pte)

-- `change_pte_read_status`: the entry stays as it is.
unfoldable pub change_pte_read_status : Ptes → ℕ → Bool → Bool × Ptes
change_pte_read_status ptes pte can_read = (not (pte == 0), ptes)

-- `change_pte_write_status`
unfoldable pub change_pte_write_status : Arch → Ptes → ℕ → Bool → Bool × Ptes
change_pte_write_status arch ptes pte can_write =
    if pte == 0
    then (false, ptes)
    else if can_write
    then (true, set_pte ptes pte (arch.pte_mkwrite (ptes pte)))
    else (true, set_pte ptes pte (arch.pte_wrprotect (ptes pte)))
