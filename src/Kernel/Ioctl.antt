-- ===== src/Kernel/Ioctl.antt =====
-- rwMem/sys.c and rwMem/sys.h: the switch of rwmem_ioctl, and the numbers of the requests.
--
-- The macros that make a number of a request from a type, a number and a size are the kernel's, and an
-- argument. User memory is the list of the bytes that are mapped from `arg` on.
pub mod Laws
use rw_mem.Common.{
  ℕ, zero, suc, ◌+◌, ◌*◌, ◌/◌, ◌%◌, ◌^◌, ◌==◌, ◌<◌, ◌≢◌, Bool, true, false, Option, none, some,
  List, if◌then◌else◌,
}
use rw_mem.Common.Result.{Result, ok, err, einval}
use rw_mem.Kernel.Maps.{Process, maps_count_ioctl, maps_list_ioctl}
use rw_mem.Kernel.Paging.{Arch, Ptes}
use rw_mem.Kernel.Residency.{Tasks, check_phy_ioctl}
use rw_mem.Kernel.AddBp.{Asked, Holdings, add_bp}

-- `_IO`, `_IOW` and `_IOWR`
pub record Macros : Type 0 where
  pub io : ℕ → ℕ → ℕ
  pub iow : ℕ → ℕ → ℕ → ℕ
  pub iowr : ℕ → ℕ → ℕ → ℕ

abbrev pub rwmem_major_num : ℕ
rwmem_major_num = 100

module _ (macros : Macros) where
  -- the sizes of `size_t` and of a pointer are 8
  abbrev pub ioctl_get_process_maps_count : ℕ
  ioctl_get_process_maps_count = macros.iow rwmem_major_num 0 8

  abbrev pub ioctl_get_process_maps_list : ℕ
  ioctl_get_process_maps_list = macros.iowr rwmem_major_num 1 8

  abbrev pub ioctl_check_process_addr_phy : ℕ
  ioctl_check_process_addr_phy = macros.iowr rwmem_major_num 2 8

  abbrev pub ioctl_add_bp : ℕ
  ioctl_add_bp = macros.iowr rwmem_major_num 3 8

  abbrev pub ioctl_get_num_brps : ℕ
  ioctl_get_num_brps = macros.io rwmem_major_num 4

  abbrev pub ioctl_get_num_wrps : ℕ
  ioctl_get_num_wrps = macros.io rwmem_major_num 5

-- What the requests ask of the kernel, with the register `ID_AA64DFR0_EL1`.
pub record Env : Type 0 where
  pub pids : ℕ → Process
  pub arch : Arch
  pub ptes : Ptes
  pub tasks : Tasks
  pub kmalloc : Bool
  pub asked : Asked
  pub id_aa64dfr0 : ℕ

-- `have_pass` as it is returned.
abbrev pub as_long : Result Bool → Result ℕ
as_long (err e) = err e
as_long (ok true) = ok 1
as_long (ok false) = ok 0

abbrev pub beside : List ℕ → Option (Result ℕ × Holdings) → Option (Result ℕ × List ℕ × Holdings)
beside mem none = none
beside mem (some (r, h)) = some (r, mem, h)

-- Bits 12 to 15 and 20 to 23 of the register.
abbrev pub num_brps : ℕ → ℕ
num_brps id_aa64dfr0 = id_aa64dfr0 / 2 ^ 12 % 16 + 1

abbrev pub num_wrps : ℕ → ℕ
num_wrps id_aa64dfr0 = id_aa64dfr0 / 2 ^ 20 % 16 + 1

-- `rwmem_ioctl`: what it returns, the caller's memory, and what the module holds.
unfoldable pub rwmem_ioctl :
    Macros → Env → Holdings → ℕ → ℕ → List ℕ → Option (Result ℕ × List ℕ × Holdings)
unfolding maps_count_ioctl maps_list_ioctl check_phy_ioctl add_bp
rwmem_ioctl macros env h cmd arg mem =
    let (listed, mem_list) = maps_list_ioctl env.pids mem in
    let (checked, mem_phy) = check_phy_ioctl env.arch env.ptes env.tasks env.kmalloc mem in
    if cmd == ioctl_get_process_maps_count macros
    then some (maps_count_ioctl env.pids arg, mem, h)
    else if cmd == ioctl_get_process_maps_list macros
    then some (as_long listed, mem_list, h)
    else if cmd == ioctl_check_process_addr_phy macros
    then some (checked, mem_phy, h)
    else if cmd == ioctl_add_bp macros
    then beside mem (add_bp env.asked h mem)
    else if cmd == ioctl_get_num_brps macros
    then some (ok (num_brps env.id_aa64dfr0), mem, h)
    else if cmd == ioctl_get_num_wrps macros
    then some (ok (num_wrps env.id_aa64dfr0), mem, h)
    else some (err einval, mem, h)
