-- ===== src/Server/Driver/Residency/Params.antt =====
-- The request of CEServer/MemoryReaderWriter37.hpp for the pages of an area, as rwMem/sys.c reads it.
use rw_mem.Common.{
  ℕ, ◌+◌, ◌-◌, ◌/◌, ◌%◌, ◌^◌, ◌≤◌, ◌<◌, ◌≡◌, ◌≢◌, sym, ap, ◌∙◌, Bool, true, none, some, List, ◌++◌,
  arith, length, take, drop, replicate, store, load, take-append_eq, drop-append_eq, drop-drop,
  load-store, length-store, length-append, length-replicate, get_elem?-get_or,
}
use rw_mem.Common.Result.{Result, ok}
use rw_mem.Kernel.Residency.Bitmap.{bit_at}
use rw_mem.Server.Handle.{RegionInfo}
use rw_mem.Server.Driver.{is_positive_int}
use rw_mem.Server.Driver.Residency.{
  buf_size, ptr_buf, check_mem_addr_is_valid, is_phy, phy_loop, resident_parts,
}

module _ (process begin_address end_address : ℕ) where
  abbrev tail : List ℕ
  tail = replicate (buf_size begin_address end_address - 24) 0

  pub ptr_buf-pid : load (take 4 (ptr_buf process begin_address end_address)) ≡ process % 2 ^ 32
  unfolding ptr_buf store load
  ptr_buf-pid = omega arith

  pub ptr_buf-begin :
      begin_address < 2 ^ 64
      → load (take 8 (drop 8 (ptr_buf process begin_address end_address))) ≡ begin_address
  unfolding ptr_buf
  ptr_buf-begin h =
      ap (λ bs. load (take 8 bs))
        (drop-append_eq 8 (store 8 process) (store 8 begin_address ++ (store 8 end_address ++ tail))
          (sym (length-store 8 process)))
      ∙ ap load (
          take-append_eq 8 (store 8 begin_address) (store 8 end_address ++ tail)
            (sym (length-store 8 begin_address)))
      ∙ load-store 8 begin_address (omega (arith, h))

  pub ptr_buf-end :
      end_address < 2 ^ 64
      → load (take 8 (drop 16 (ptr_buf process begin_address end_address))) ≡ end_address
  unfolding ptr_buf
  ptr_buf-end h =
      ap (λ bs. load (take 8 bs))
        (sym (drop-drop 8 8 (ptr_buf process begin_address end_address))
          ∙ ap (drop 8) (
              drop-append_eq 8 (store 8 process)
                (store 8 begin_address ++ (store 8 end_address ++ tail))
                (sym (length-store 8 process)))
          ∙ drop-append_eq 8 (store 8 begin_address) (store 8 end_address ++ tail)
              (sym (length-store 8 begin_address)))
      ∙ ap load (take-append_eq 8 (store 8 end_address) tail (sym (length-store 8 end_address)))
      ∙ load-store 8 end_address (omega (arith, h))

  pub length-ptr_buf :
      24 ≤ buf_size begin_address end_address
      → length (ptr_buf process begin_address end_address) ≡ buf_size begin_address end_address
  unfolding ptr_buf
  length-ptr_buf h = omega (
    arith,
    h,
    length-append (store 8 process) (store 8 begin_address ++ (store 8 end_address ++ tail)),
    length-append (store 8 begin_address) (store 8 end_address ++ tail),
    length-append (store 8 end_address) tail,
    length-store 8 process,
    length-store 8 begin_address,
    length-store 8 end_address,
    length-replicate {A = ℕ} (buf_size begin_address end_address - 24) 0,
  )

  pub buf_size_bounds :
      begin_address % 4096 ≡ 0
      → end_address % 4096 ≡ 0
      → begin_address < end_address
      → end_address < 2 ^ 64
      → (end_address - begin_address) / 4096 < 2 ^ 31
      → (24 ≤ buf_size begin_address end_address)
        × (((end_address - begin_address) / 4096 + 7) / 8 ≤ buf_size begin_address end_address)
  unfolding buf_size
  buf_size_bounds a b order top small = ground arith

pub is_phy-bit_at :
    (new : List ℕ) (p n : ℕ) (resident : ℕ → Bool)
    → (n + 7) / 8 ≤ length new
    → p < n
    → bit_at new p ≡ resident p
    → is_phy new p ≡ some (resident p)
unfolding is_phy bit_at
is_phy-bit_at new p n resident room lt same =
    let zeros : ℕ = 0 in
    rw (get_elem?-get_or new (p / 8) zeros (omega arith), is_phy) (ap some same)

pub is_positive_int_of : (r : ℕ) → 0 < r → r < 2 ^ 31 → is_positive_int r ≡ true
is_positive_int_of r a b = ground arith

pub answered_valid :
    (check_ioctl : List ℕ → Result ℕ × List ℕ) (process start end r : ℕ) (new : List ℕ)
    → process ≢ 0
    → check_ioctl (ptr_buf process start end) ≡ (ok r, new)
    → is_positive_int r ≡ true
    → check_mem_addr_is_valid check_ioctl process start end ≡ some new
unfolding check_mem_addr_is_valid
answered_valid check_ioctl process start end r new there same positive = ground arith

pub shown_parts :
    (check_ioctl : List ℕ → Result ℕ × List ℕ) (process end n : ℕ) (r : RegionInfo) (new : List ℕ)
    (qs : List RegionInfo)
    → (r.baseaddress + r.size) % 2 ^ 64 ≡ end
    → check_mem_addr_is_valid check_ioctl process r.baseaddress end ≡ some new
    → (end + 4095 - r.baseaddress) / 4096 ≡ n
    → phy_loop r new end n r.baseaddress 0 none ≡ some qs
    → resident_parts check_ioctl process r ≡ some qs
unfolding resident_parts
shown_parts check_ioctl process end n r new qs whole same rounds shown =
    rw (whole, same, whole, rounds, resident_parts) shown
