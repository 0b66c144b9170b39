-- ===== src/Server/Driver.antt =====
-- CEServer/MemoryReaderWriter37.hpp: the client of the kernel module.
--
-- The system calls on the driver's file are arguments. A buffer is the list of its bytes, and a
-- `read_entry` past its end is the fault `none`.
pub mod Entries
pub mod Decode
pub mod Overrun
pub mod Memory
pub mod Residency
pub mod Requests
pub mod Fast
pub mod Connection
use rw_mem.Common.{
  ℕ, zero, suc, ◌+◌, ◌-◌, ◌*◌, ◌%◌, ◌^◌, Bool, true, false, Option, none, some, List, [], ◌∷◌, ◌++◌,
  ltb, ◌==◌, if◌then◌else◌, length, take, drop, replicate, store, load, get_or,
}
use rw_mem.Common.Result.{Result, ok, err}
use rw_mem.Server.Handle.{RegionInfo}

abbrev pub page_noaccess : ℕ
page_noaccess = 1

abbrev pub page_readonly : ℕ
page_readonly = 2

abbrev pub page_readwrite : ℕ
page_readwrite = 4

abbrev pub page_execute_read : ℕ
page_execute_read = 32

abbrev pub page_execute_readwrite : ℕ
page_execute_readwrite = 64

abbrev pub mem_mapped : ℕ
mem_mapped = 262144

abbrev pub mem_private : ℕ
mem_private = 131072

-- `vma_flags` to `rInfo.protection`.
unfoldable pub protection_of : ℕ → ℕ → ℕ → ℕ
protection_of r w x =
    if x == 1
    then (if w == 1 then page_execute_readwrite else page_execute_read)
    else if w == 1
    then page_readwrite
    else if r == 1
    then page_readonly
    else page_noaccess

-- The characters of a C string: up to the first zero.
unfoldable pub c_string : List ℕ → List ℕ
c_string [] = []
c_string (c ∷ cs) = if c == 0 then [] else c ∷ c_string cs

-- The body of the loop over the entries, up to `rInfo`: the region, and what stands behind the
-- entry. The last byte of the name is overwritten with a zero.
unfoldable pub read_entry : List ℕ → Option (RegionInfo × List ℕ)
unfolding protection_of c_string
read_entry mem =
    let vma_start = load (take 8 mem) in
    let vma_end = load (take 8 (drop 8 mem)) in
    let flags = take 4 (drop 16 mem) in
    let name = take 511 (drop 20 mem) in
    if ltb (length mem) 532
    then none
    else some (
      record {
        baseaddress = vma_start;
        size = (vma_end + 2 ^ 64 - vma_start) % 2 ^ 64;
        protection = protection_of (get_or flags 0 0) (get_or flags 1 0) (get_or flags 2 0);
        type = if get_or flags 3 0 == 1 then mem_mapped else mem_private;
        name = c_string name;
      },
      drop 532 mem,
    )

-- `for (; res > 0; res--)`, where everything is shown (`showPhy` is FALSE).
unfoldable pub read_entries : ℕ → List ℕ → Option (List RegionInfo)
read_entries zero mem = some []
read_entries (suc res) mem = elim (read_entry mem) [
  | none ↦ none
  | some (r, rest) ↦ elim (read_entries res rest) [ none ↦ none | some rs ↦ some (r ∷ rs) ]
]

-- `big_buf_len`. The product is an `int` in the source; it is one as long as there are less than four
-- million areas.
abbrev pub big_buf_len : ℕ → ℕ
big_buf_len count = 8 + (8 + 8 + 4 + 512) * (count + 50)

-- `big_buf` as it is handed to the driver: the process, the length of a name, the buffer's length.
unfoldable pub big_buf : ℕ → ℕ → List ℕ
big_buf process count =
    store 8 process
    ++ (store 8 512 ++ (store 8 (big_buf_len count) ++ replicate (big_buf_len count - 24) 0))

-- What `VirtualQueryExFull` returns: BOOL, the regions and `bOutListCompleted`, or nothing where it
-- reads past its buffer. `bOutListCompleted` is not set on the early returns.
pub data Query : Type 0 where
  fault : Query
  failed : Query
  answer : Bool → List RegionInfo → Bool → Query

abbrev pub answered : Bool → Option (List RegionInfo) → Query
answered unfinish none = fault
answered false (some rs) = answer true rs false
answered true (some rs) = answer false rs true

-- The `int` that `ioctl` returns, where the request gives a larger number.
abbrev pub is_positive_int : ℕ → Bool
is_positive_int r = if r % 2 ^ 32 == 0 then false else ltb (r % 2 ^ 32) (2 ^ 31)

-- `_rwProcMemDriver_VirtualQueryExFull` with `showPhy` FALSE. The first argument says whether the
-- driver is connected; the next two are the requests COUNT and LIST to it.
unfoldable pub virtual_query_ex_full :
    Bool → (ℕ → Result ℕ) → (List ℕ → Result Bool × List ℕ) → ℕ → Query
virtual_query_ex_full false count_ioctl list_ioctl process = failed
virtual_query_ex_full true count_ioctl list_ioctl process =
    if process == 0 then failed else elim (count_ioctl process) [
      | err e ↦ failed
      | ok count ↦
          let (ret, mem) = list_ioctl (big_buf process (count % 2 ^ 32)) in
          if is_positive_int count
          then elim ret [
            | err e ↦ failed
            | ok unfinish ↦ answered unfinish (read_entries (load (take 8 mem)) (drop 8 mem))
          ]
          else failed
    ]
