-- ===== src/Server/Driver/Requests.antt =====
-- CEServer/MemoryReaderWriter37.hpp: the numbers of its requests, as rwMem/sys.c answers them.
--
-- `_rwProcMemDriver_MyIoctl` here is the call of `ioctl`. The macros that make the numbers are an
-- argument, the same for the client and the kernel module.
pub mod Laws
use rw_mem.Common.{ℕ, zero, suc, Bool, true, false, Option, none, some, List, [], load, take, drop}
use rw_mem.Common.Result.{Result, ok, err, efault}
use rw_mem.Kernel.AddBp.{Holdings}
use rw_mem.Kernel.Ioctl.{Macros, Env, rwmem_ioctl}

abbrev pub major_num : ℕ
major_num = 100

module _ (macros : Macros) where
  abbrev pub client_maps_count : ℕ
  client_maps_count = macros.iowr major_num 0 8

  abbrev pub client_maps_list : ℕ
  client_maps_list = macros.iowr major_num 1 8

  abbrev pub client_addr_phy : ℕ
  client_addr_phy = macros.iowr major_num 2 8

-- What a caller sees of a call: what it returns and its memory. The kernel's use of data that are gone
-- has no answer, and is taken for an error.
abbrev pub seen : List ℕ → Option (Result ℕ × List ℕ × Holdings) → Result ℕ × List ℕ
seen mem none = (err efault, mem)
seen mem (some (r, mem', h)) = (r, mem')

-- `unfinish`: whether the number that is returned is not 0.
abbrev pub as_flag : Result ℕ → Result Bool
as_flag (err e) = err e
as_flag (ok zero) = ok false
as_flag (ok (suc n)) = ok true

module _ (macros : Macros) (env : Env) (h : Holdings) where
  -- `_rwProcMemDriver_MyIoctl` of a request with its argument.
  unfoldable pub my_ioctl : ℕ → ℕ → List ℕ → Result ℕ × List ℕ
  unfolding rwmem_ioctl
  my_ioctl cmd arg mem = seen mem (rwmem_ioctl macros env h cmd arg mem)

  -- The client's three requests; `buf` is where its buffer stands.
  unfoldable pub count_request : ℕ → Result ℕ
  unfolding my_ioctl
  count_request process = (my_ioctl (client_maps_count macros) process []).0

  unfoldable pub list_request : ℕ → List ℕ → Result Bool × List ℕ
  unfolding my_ioctl
  list_request buf mem =
      let (r, mem') = my_ioctl (client_maps_list macros) buf mem in (as_flag r, mem')

  unfoldable pub phy_request : ℕ → List ℕ → Result ℕ × List ℕ
  unfolding my_ioctl
  phy_request buf mem = my_ioctl (client_addr_phy macros) buf mem
