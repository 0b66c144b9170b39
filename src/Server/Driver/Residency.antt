-- ===== src/Server/Driver/Residency.antt =====
-- CEServer/MemoryReaderWriter37.hpp: the areas cut down to the pages that lie in physical memory
-- (`showPhy` TRUE).
--
-- The driver's request is an argument, as is its answer's buffer. What `new` leaves behind the three
-- parameters is zeros here; the driver does not read it. A look past the map of bits is the fault
-- `none`.
pub mod Runs
pub mod Params
pub mod Shown
pub mod Whole
use rw_mem.Common.{
  ℕ, zero, suc, ◌+◌, ◌-◌, ◌*◌, ◌/◌, ◌%◌, ◌^◌, Bool, true, false, Option, none, some, List, [], ◌∷◌,
  ◌++◌, max, ltb, ◌==◌, if◌then◌else◌, take, drop, replicate, store, load, get_elem?, test_bit,
}
use rw_mem.Common.Result.{Result, ok, err}
use rw_mem.Server.Handle.{RegionInfo}
use rw_mem.Server.Driver.{read_entry, big_buf, Query, fault, failed, answered, is_positive_int}

-- `bufSize` of `_rwProcMemDriver_CheckMemAddrIsValid`: `std::max<int>` of 24 and a number that is cut to
-- an `int`.
unfoldable pub buf_size : ℕ → ℕ → ℕ
buf_size begin_address end_address =
    let bytes = (end_address / 4096 + 2 ^ 64 - begin_address / 4096 + 7) % 2 ^ 64 / 8 % 2 ^ 32 in
    if ltb bytes (2 ^ 31) then max 24 bytes else 24

-- `ptr_buf` as it is handed to the driver.
unfoldable pub ptr_buf : ℕ → ℕ → ℕ → List ℕ
unfolding buf_size
ptr_buf process begin_address end_address =
    store 8 process
    ++ (store 8 begin_address
        ++ (store 8 end_address ++ replicate (buf_size begin_address end_address - 24) 0))

-- The parts of the loop over a process's areas that ask the driver for their pages.
module _ (check_ioctl : List ℕ → Result ℕ × List ℕ) where
  -- `_rwProcMemDriver_CheckMemAddrIsValid`: the map of bits, or a null pointer.
  unfoldable pub check_mem_addr_is_valid : ℕ → ℕ → ℕ → Option (List ℕ)
  unfolding ptr_buf
  check_mem_addr_is_valid process begin_address end_address =
      let (ret, answer) = check_ioctl (ptr_buf process begin_address end_address) in
      if process == 0
      then none
      else elim ret [ err e ↦ none | ok r ↦ if is_positive_int r then some answer else none ]

-- `isphy[i / 8] & ((char)1 << (i % 8))`
unfoldable pub is_phy : List ℕ → ℕ → Option Bool
is_phy isphy i = elim (get_elem? isphy (i / 8)) [ none ↦ none | some b ↦ some (test_bit b (i % 8)) ]

-- `rPhyInfo` when it is put out.
abbrev pub part : RegionInfo → ℕ → ℕ → RegionInfo
part r base end = record r { baseaddress = base; size = (end + 2 ^ 64 - base) % 2 ^ 64 }

-- What stands behind the loop.
abbrev pub last_part : RegionInfo → ℕ → Option ℕ → List RegionInfo
last_part r vma_end none = []
last_part r vma_end (some base) = part r base vma_end ∷ []

abbrev pub prepend : RegionInfo → Option (List RegionInfo) → Option (List RegionInfo)
prepend r none = none
prepend r (some rs) = some (r ∷ rs)

-- The loop over the pages of an area, and what stands behind it. The start of the part that is open is
-- `rPhyInfo.baseaddress` where `isPhyRegion` is 1.
unfoldable pub phy_loop : RegionInfo → List ℕ → ℕ → ℕ → ℕ → ℕ → Option ℕ → Option (List RegionInfo)
unfolding is_phy
phy_loop r isphy vma_end zero addr i open_at = some (last_part r vma_end open_at)
phy_loop r isphy vma_end (suc rounds) addr i open_at =
    let next = (addr + 4096) % 2 ^ 64 in
    elim (ltb addr vma_end) [
      | false ↦ some (last_part r vma_end open_at)
      | true ↦ elim (is_phy isphy i) [
        | none ↦ none
        | some true ↦ elim open_at [
          | none ↦ phy_loop r isphy vma_end rounds next (i + 1) (some addr)
          | some base ↦ phy_loop r isphy vma_end rounds next (i + 1) (some base)
        ]
        | some false ↦ elim open_at [
          | none ↦ phy_loop r isphy vma_end rounds next (i + 1) none
          | some base ↦
              prepend (part r base addr) (phy_loop r isphy vma_end rounds next (i + 1) none)
        ]
      ]
    ]

module _ (check_ioctl : List ℕ → Result ℕ × List ℕ) where
  -- The case `showPhy` for one area: there is a round for each page that the area touches.
  unfoldable pub resident_parts : ℕ → RegionInfo → Option (List RegionInfo)
  resident_parts process r =
      let vma_end = (r.baseaddress + r.size) % 2 ^ 64 in
      elim (check_mem_addr_is_valid check_ioctl process r.baseaddress vma_end) [
        | none ↦ some []
        | some isphy ↦
            phy_loop r isphy vma_end ((vma_end + 4095 - r.baseaddress) / 4096) r.baseaddress 0 none
      ]

  -- `for (; res > 0; res--)` where `showPhy` is TRUE.
  unfoldable pub read_resident : ℕ → ℕ → List ℕ → Option (List RegionInfo)
  read_resident process zero mem = some []
  read_resident process (suc res) mem = elim (read_entry mem) [
    | none ↦ none
    | some (r, rest) ↦ elim (resident_parts process r) [
      | none ↦ none
      | some here ↦ elim (read_resident process res rest) [
        | none ↦ none
        | some later ↦ some (here ++ later)
      ]
    ]
  ]

  -- `_rwProcMemDriver_VirtualQueryExFull` with `showPhy` TRUE.
  unfoldable pub virtual_query_ex_full_phy :
      Bool → (ℕ → Result ℕ) → (List ℕ → Result Bool × List ℕ) → ℕ → Query
  virtual_query_ex_full_phy false count_ioctl list_ioctl process = failed
  virtual_query_ex_full_phy true count_ioctl list_ioctl process =
      if process == 0 then failed else elim (count_ioctl process) [
        | err e ↦ failed
        | ok count ↦
            let (ret, mem) = list_ioctl (big_buf process (count % 2 ^ 32)) in
            if is_positive_int count
            then elim ret [
              | err e ↦ failed
              | ok unfinish ↦
                  answered unfinish (read_resident process (load (take 8 mem)) (drop 8 mem))
            ]
            else failed
      ]
