-- ===== src/Kernel/Tests/Transfers.antt =====
-- Reads, writes and checks of pages on a small memory.
use rw_mem.Common.{
  ℕ, ◌+◌, ◌-◌, ◌*◌, ◌/◌, ◌%◌, ◌^◌, ◌≤◌, ◌≡◌, refl, ◌==◌, true, false, none, some, List, ◌∷◌, ◌++◌,
  arith, le→leb, length, drop, take, replicate, load, get_or, store,
}
use rw_mem.Common.Result.{ok}
use rw_mem.Kernel.Memory.{transfer}
use rw_mem.Kernel.Paging.{Arch, Ptes}
use rw_mem.Kernel.Paging.Laws.{IsPaged}
use rw_mem.Kernel.Physical.{Ram, check_phys_addr_valid_range}
use rw_mem.Kernel.Physical.Copies.{is_copied}
use rw_mem.Kernel.Residency.{Tasks, is_resident, check_phy_ioctl}
use rw_mem.Kernel.Residency.Bitmap.{Holds}
use rw_mem.Kernel.Residency.Request.{check_phy_ioctl_lem}
use rw_mem.Kernel.Transfer.{Kernel, rwmem_read, rwmem_write}
use rw_mem.Kernel.Transfer.Refines.{read_tables}
use rw_mem.Kernel.Transfer.Bytes.{pasted, rwmem_read-transfer}
use rw_mem.Kernel.Transfer.Reads.{Reads, rwmem_read_lem}
use rw_mem.Kernel.Transfer.Entries.{IsLawful}
use rw_mem.Kernel.Transfer.Stores.{Writes, rwmem_write_lem}

-- Entries are a page's number and, in the lowest bit, whether it can be written. Page n of the process is
-- page n + 1 of physical memory.
abbrev pub flat_arch : Arch
flat_arch = record {
  get_task_mm = λ _. some 1;
  pgd_offset = λ _ _. 1;
  pgd_none = λ _. false;
  p4d_offset = λ _ _. 1;
  p4d_none = λ _. false;
  pud_offset = λ _ _. 1;
  pud_none = λ _. false;
  pmd_offset = λ _ _. 1;
  pmd_none = λ _. false;
  pte_offset_kernel = λ _ a. a / 4096 + 1;
  pte_none = λ _. false;
  page_to_phys = λ v. v / 2 * 4096;
  pte_read = none;
  pte_write = λ v. v % 2 == 1;
  pte_mkwrite = λ v. v / 2 * 2 + 1;
  pte_wrprotect = λ v. v / 2 * 2;
}

abbrev pub flat_ptes : Ptes
flat_ptes p = 2 * p

abbrev pub one_task : Tasks
one_task = record { find_get_pid = λ _. true; pid_task = λ _. some 7 }

abbrev all_ram : Ram
all_ram = record {
  totalram = 1;
  mem_unit = 1;
  hweight32 = λ _. 0;
  pa = λ _. 2 ^ 64 - 1;
  kmalloc = true;
  xlate_dev_mem_ptr = λ _. true;
  probe_kernel_read = λ _ _. true;
}

abbrev pub flat_kernel : Kernel
flat_kernel = record {
  arch = flat_arch;
  ram = all_ram;
  tasks = one_task;
  find_vma = λ _ _. none;
  total_memory = 2 ^ 64 - 1;
}

pub all_copies : (phy_addr n : ℕ) → is_copied all_ram (2 ^ 64 - 1) phy_addr n ≡ true
unfolding check_phys_addr_valid_range
all_copies a n = rw (le→leb ((a + n) % 2 ^ 64) (2 ^ 64 - 1) (omega arith)) refl

pub flat_arch-IsPaged : IsPaged flat_arch
flat_arch-IsPaged = record {
  pgd = λ mm a b e. refl;
  p4d = λ t a b e. refl;
  pud = λ t a b e. refl;
  pmd = λ t a b e. refl;
  pte = λ t a b e. omega arith;
  aligned = λ value. omega arith;
}

flat_arch-IsLawful : IsLawful flat_arch
flat_arch-IsLawful = record {
  write-mkwrite = λ v. ground arith;
  write-wrprotect = λ v. ground arith;
  none-mkwrite = λ v. refl;
  none-wrprotect = λ v. refl;
  page-mkwrite = λ v. omega arith;
  page-wrprotect = λ v. omega arith;
}

-- Process 42, address 20480 and the force flag, with room for the answer.
abbrev some_request : List ℕ
some_request = store 8 42 ++ (store 8 20480 ++ (1 ∷ replicate 20 9))

abbrev pub some_ram : ℕ → ℕ
some_ram a = a % 256

long_request : 37 ≤ length some_request
unfolding store
long_request = omega arith

rwmem_read-transfer_example :
    rwmem_read flat_kernel some_ram flat_ptes some_request 30
    ≡ pasted flat_kernel some_ram flat_ptes some_request
        (transfer (read_tables flat_kernel flat_ptes) (some (take 17 some_request)) 30)
rwmem_read-transfer_example =
    rwmem_read-transfer flat_kernel flat_ptes some_ram some_request 30 (omega (arith, long_request))
      (omega (arith, long_request))

rwmem_read_lem_example :
    Reads flat_kernel flat_ptes some_ram some_request 30
      (load (take 8 some_request) % 2 ^ 32)
      (load (take 8 (drop 8 some_request)))
      (get_or some_request 16 0 == 1)
      (rwmem_read flat_kernel some_ram flat_ptes some_request 30)
rwmem_read_lem_example =
    rwmem_read_lem flat_kernel flat_arch-IsPaged flat_ptes some_ram some_request 30
      (omega (arith, long_request)) (omega (arith, long_request))

rwmem_write_lem_example :
    Writes flat_kernel flat_ptes some_ram 20
      (load (take 8 some_request) % 2 ^ 32)
      (load (take 8 (drop 8 some_request)))
      (get_or some_request 16 0 == 1)
      (drop 17 some_request)
      (rwmem_write flat_kernel some_ram flat_ptes some_request 20)
rwmem_write_lem_example =
    rwmem_write_lem flat_kernel flat_arch-IsPaged flat_arch-IsLawful flat_ptes some_ram 20
      some_request (omega (arith, long_request))

-- Pages 5 to 14 of process 42, all of which are there.
abbrev some_range : List ℕ
some_range = store 8 42 ++ (store 8 20480 ++ store 8 61440)

long_range : length some_range ≡ 24
unfolding store
long_range = refl

check_phy_ioctl_lem_example :
    (new : List ℕ) × (check_phy_ioctl flat_arch flat_ptes one_task true some_range
      ≡ (ok ((61440 - 20480) / 4096), new))
    × Holds
        (λ p. is_resident flat_arch flat_ptes 7 (20480 + 4096 * p))
        ((61440 - 20480) / 4096)
        some_range
        new
unfolding load store
check_phy_ioctl_lem_example =
    check_phy_ioctl_lem flat_arch flat_ptes one_task some_range 42 7 20480 61440
      (omega (arith, long_range)) refl refl refl (omega arith) (omega arith) (omega arith)
      (omega arith) refl refl (omega (arith, long_range))
