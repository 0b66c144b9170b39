-- ===== src/Server/Tests/Areas.antt =====
-- The driver's client and the queries on a small process.
use rw_mem.Common.{
  ℕ, ◌+◌, ◌%◌, ◌^◌, ◌≤◌, ◌<◌, ◌≡◌, refl, true, false, not, none, some, List, [], ◌∷◌, map, arith,
  leb, length, take,
}
use rw_mem.Kernel.Maps.{no_mm, Vma, Mm, Process, alive, maps_count_ioctl, maps_list_ioctl}
use rw_mem.Kernel.Memory.{PageTables, transfer}
use rw_mem.Server.Handle.{RegionInfo}
use rw_mem.Server.Driver.{virtual_query_ex_full, answer, fault}
use rw_mem.Server.Driver.Entries.{region_of}
use rw_mem.Server.Driver.Overrun.{virtual_query_ex_full-no_mm}
use rw_mem.Server.Driver.Decode.{virtual_query_ex_full-kernel}
use rw_mem.Server.Driver.Memory.{header}
use rw_mem.Kernel.Memory.Answers.{Answers}
use rw_mem.Server.Driver.Memory.Laws.{transfer-header}
use rw_mem.Server.Query.{page_of, answer_from}
use rw_mem.Server.Query.Search.{Describes, answer_lem}

abbrev some_areas : List Vma
some_areas =
    record {
      vm_start = 4096;
      vm_end = 8192;
      vm_read = true;
      vm_write = false;
      vm_exec = true;
      vm_mayshare = false;
      vm_file = some (b'a' ∷ []);
    }
    ∷ record {
      vm_start = 8192;
      vm_end = 16384;
      vm_read = true;
      vm_write = true;
      vm_exec = false;
      vm_mayshare = true;
      vm_file = none;
    }
    ∷ []

abbrev small_mm : Mm
small_mm = record {
  mmap = some_areas;
  map_count = 2;
  vdso = 0;
  brk = 0;
  start_brk = 0;
  start_stack = 12000;
}

abbrev small_pids : ℕ → Process
small_pids _ = alive small_mm

virtual_query_ex_full-kernel_example :
    virtual_query_ex_full true (maps_count_ioctl small_pids) (maps_list_ioctl small_pids) 42
    ≡ answer
        (leb (length some_areas) 52)
        (map (region_of small_mm) (take 52 some_areas))
        (not (leb (length some_areas) 52))
virtual_query_ex_full-kernel_example =
    virtual_query_ex_full-kernel small_pids small_pids 42 small_mm small_mm (omega arith)
      (λ e. absurd (omega arith)) refl refl (omega arith) (omega arith)
      ((omega arith, omega arith), ((omega arith, omega arith), tt))

abbrev flat_memory : PageTables
flat_memory = record {
  find_get_pid = λ _. true;
  check_proc_map = λ _ _ _. true;
  get_proc_phy_addr = λ _ a. a;
  is_pte_allowing = λ _ _. true;
  change_pte_status = λ _ _. true;
}

transfer-header_example :
    Answers flat_memory
      (42 % 2 ^ 32)
      8190
      5000
      false
      (transfer flat_memory (some (header 42 8190 false)) 5000)
transfer-header_example = transfer-header flat_memory 42 8190 5000 false (omega arith) (omega arith)

abbrev listed_areas : List RegionInfo
listed_areas =
    record { baseaddress = 4096; size = 4096; protection = 2; type = 131072; name = [] }
    ∷ record { baseaddress = 16384; size = 8192; protection = 4; type = 131072; name = [] }
    ∷ []

answer_lem_example :
    (page_of 12345 ≤ 12345)
    × (12345 < page_of 12345 + 4096)
    × (page_of 12345 % 4096 ≡ 0)
    × Describes (page_of 12345) listed_areas (answer_from (page_of 12345) listed_areas)
answer_lem_example =
    answer_lem 12345 listed_areas
      (omega arith, omega arith, omega arith, (omega arith, omega arith, omega arith, tt))

virtual_query_ex_full-no_mm_example :
    virtual_query_ex_full true (maps_count_ioctl small_pids) (maps_list_ioctl (λ _. no_mm)) 42
    ≡ fault
virtual_query_ex_full-no_mm_example =
    virtual_query_ex_full-no_mm small_pids (λ _. no_mm) 42 small_mm (omega arith)
      (λ e. absurd (omega arith)) refl refl (omega arith) (omega arith)
