-- ===== src/Server/Tests/Residency.antt =====
-- The areas of a process cut down to the pages that lie in physical memory, on a small memory.
use rw_mem.Common.{
  ℕ, ◌+◌, ◌*◌, ◌/◌, ◌≡◌, refl, true, false, some, List, [], ◌∷◌, ◌++◌, arith, replicate, store,
  load,
}
use rw_mem.Common.Result.{ok}
use rw_mem.Kernel.Residency.{is_resident, check_phy_ioctl}
use rw_mem.Kernel.Tests.Transfers.{flat_arch, flat_ptes, one_task}
use rw_mem.Server.Handle.{RegionInfo}
use rw_mem.Server.Driver.{
  answer, virtual_query_ex_full, read_entries, read_entry, protection_of, c_string,
}
use rw_mem.Server.Driver.Residency.{resident_parts, virtual_query_ex_full_phy}
use rw_mem.Server.Driver.Residency.Runs.{AreRuns}
use rw_mem.Server.Driver.Residency.Shown.{resident_parts-kernel}
use rw_mem.Server.Driver.Residency.Whole.{AreShown, virtual_query_ex_full_phy-AreShown}

-- Pages 5 to 14.
abbrev ten_pages : RegionInfo
ten_pages = record {
  baseaddress = 20480;
  size = 40960;
  protection = 4;
  type = 131072;
  name = b'a' ∷ [];
}

resident_parts-kernel_example :
    (qs : List RegionInfo) × (resident_parts
        (check_phy_ioctl flat_arch flat_ptes one_task true)
        42
        ten_pages
      ≡ some qs)
    × AreRuns ten_pages
        (ten_pages.size / 4096)
        (λ p. is_resident flat_arch flat_ptes 7 (ten_pages.baseaddress + 4096 * p))
        0
        qs
resident_parts-kernel_example =
    resident_parts-kernel flat_arch flat_ptes one_task 42 7 (omega arith) refl refl ten_pages refl
      refl (omega arith) (omega arith) (omega arith)

-- The driver's answer with the one area: readable, writable and private.
abbrev one_area : List ℕ
one_area =
    store 8 1 ++ (store 8 20480 ++ (store 8 61440 ++ (1 ∷ 1 ∷ 0 ∷ 0 ∷ b'a' ∷ replicate 511 0)))

virtual_query_ex_full_phy-AreShown_example :
    (qs : List RegionInfo) × (virtual_query_ex_full_phy
        (check_phy_ioctl flat_arch flat_ptes one_task true)
        true
        (λ _. ok 1)
        (λ _. (ok false, one_area))
        42
      ≡ answer true qs false)
    × AreShown flat_arch flat_ptes one_task 42 7 (omega arith) refl refl (ten_pages ∷ []) qs
unfolding virtual_query_ex_full read_entries read_entry protection_of c_string store load
virtual_query_ex_full_phy-AreShown_example =
    virtual_query_ex_full_phy-AreShown flat_arch flat_ptes one_task 42 7 (omega arith) refl refl
      (λ _. ok 1) (λ _. (ok false, one_area)) true false (ten_pages ∷ []) refl
      ((refl, refl, omega arith, omega arith, omega arith), tt)
