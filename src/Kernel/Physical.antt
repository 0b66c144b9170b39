-- ===== src/Kernel/Physical.antt =====
-- rwMem/phy_mem.h: the copies between physical memory and the caller's buffer.
--
-- Physical memory is a function from addresses to bytes; the caller's memory is the list of the bytes
-- that are mapped from a pointer on. What the kernel answers is an argument. A copy to the caller fails
-- if its memory ends too soon, and what it leaves then is not modelled; a copy from the caller gets as
-- far as the memory goes. Both functions are called with `is_kernel_buf` FALSE, and only that is here.
pub mod Copies
use rw_mem.Common.{
  ℕ, zero, suc, ◌+◌, ◌-◌, ◌*◌, ◌%◌, ◌^◌, ◌==◌, Bool, true, false, ◌&&◌, List, [], ◌∷◌, ◌++◌, ltb,
  leb, min, if◌then◌else◌, length, take, drop,
}
use rw_mem.Kernel.Memory.{size_inside_page}

pub record Ram : Type 0 where
  -- `si_meminfo`, `hweight32` and `__pa`
  pub totalram : ℕ
  pub mem_unit : ℕ
  pub hweight32 : ℕ → ℕ
  pub pa : ℕ → ℕ
  -- whether `kmalloc`, `xlate_dev_mem_ptr` and `x_probe_kernel_read` succeed
  pub kmalloc : Bool
  pub xlate_dev_mem_ptr : ℕ → Bool
  pub probe_kernel_read : ℕ → ℕ → Bool

-- `g_phy_total_memory_size` once it is set.
unfoldable pub phy_total_memory_size : Ram → ℕ → ℕ
phy_total_memory_size k total =
    let bitcount = k.hweight32 ((k.mem_unit + 2 ^ 32 - 1) % 2 ^ 32) + 1 in
    if total == 0 then k.pa (k.totalram * 2 ^ bitcount % 2 ^ 64) else total

-- `check_phys_addr_valid_range`, given the static variable.
unfoldable pub check_phys_addr_valid_range : Ram → ℕ → ℕ → ℕ → Bool
unfolding phy_total_memory_size
check_phys_addr_valid_range k total addr count =
    leb ((addr + count) % 2 ^ 64) (phy_total_memory_size k total)

-- The bytes of physical memory from an address on.
unfoldable pub bytes_at : (ℕ → ℕ) → ℕ → ℕ → List ℕ
bytes_at ram phy_addr zero = []
bytes_at ram phy_addr (suc n) = ram phy_addr ∷ bytes_at ram (phy_addr + 1) n

-- The bytes are put there.
unfoldable pub put_bytes : (ℕ → ℕ) → ℕ → List ℕ → ℕ → ℕ
put_bytes ram phy_addr [] = ram
put_bytes ram phy_addr (b ∷ bs) =
    put_bytes (λ a. if a == phy_addr then b else ram a) (phy_addr + 1) bs

-- The loop of `read_ram_physical_addr`: `realRead`, and the memory from `lpBuf` on. Every round
-- copies a byte at least, so that the size is fuel enough.
unfoldable pub read_ram_loop : Ram → (ℕ → ℕ) → ℕ → ℕ → ℕ → List ℕ → ℕ × List ℕ
read_ram_loop k ram zero phy_addr read_size buf = (0, buf)
read_ram_loop k ram (suc fuel) phy_addr read_size buf =
    let sz = size_inside_page phy_addr read_size in
    let next = (phy_addr + sz) % 2 ^ 64 in
    let (n, rest) = read_ram_loop k ram fuel next (read_size - sz) (drop sz buf) in
    if read_size == 0
    then (0, buf)
    else if k.xlate_dev_mem_ptr phy_addr
    then (if k.probe_kernel_read phy_addr sz
        then (if ltb (length buf) sz then (0, buf) else (sz + n, bytes_at ram phy_addr sz ++ rest))
        else (0, buf))
    else (0, buf)

-- `read_ram_physical_addr`
unfoldable pub read_ram_physical_addr : Ram → ℕ → (ℕ → ℕ) → ℕ → ℕ → List ℕ → ℕ × List ℕ
read_ram_physical_addr k total ram phy_addr read_size buf =
    if check_phys_addr_valid_range k total phy_addr read_size
    then (if k.kmalloc then read_ram_loop k ram read_size phy_addr read_size buf else (0, buf))
    else (0, buf)

-- The loop of `write_ram_physical_addr`: `realWrite`, and physical memory.
unfoldable pub write_ram_loop : Ram → ℕ → ℕ → ℕ → List ℕ → (ℕ → ℕ) → ℕ × (ℕ → ℕ)
write_ram_loop k zero phy_addr write_size buf ram = (0, ram)
write_ram_loop k (suc fuel) phy_addr write_size buf ram =
    let sz = size_inside_page phy_addr write_size in
    let next = (phy_addr + sz) % 2 ^ 64 in
    let ram' = put_bytes ram phy_addr (take sz buf) in
    let (n, later) = write_ram_loop k fuel next (write_size - sz) (drop sz buf) ram' in
    if write_size == 0
    then (0, ram)
    else if k.xlate_dev_mem_ptr phy_addr
    then (if ltb (length buf) sz then (length buf, ram') else (sz + n, later))
    else (0, ram)

-- `write_ram_physical_addr`
unfoldable pub write_ram_physical_addr : Ram → ℕ → ℕ → ℕ → List ℕ → (ℕ → ℕ) → ℕ × (ℕ → ℕ)
write_ram_physical_addr k total phy_addr write_size buf ram =
    if check_phys_addr_valid_range k total phy_addr write_size
    then write_ram_loop k write_size phy_addr write_size buf ram
    else (0, ram)
