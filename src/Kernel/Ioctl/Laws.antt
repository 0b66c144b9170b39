-- ===== src/Kernel/Ioctl/Laws.antt =====
-- What a request of rwMem/sys.c does, by the macro that made its number.
use rw_mem.Common.{ℕ, ◌^◌, ◌==◌, ==_self, ==_false, ◌<◌, ◌≡◌, ◌≢◌, refl, false, some, List, arith}
use rw_mem.Common.Result.{err, einval}
use rw_mem.Kernel.Maps.{maps_count_ioctl, maps_list_ioctl}
use rw_mem.Kernel.Residency.{check_phy_ioctl}
use rw_mem.Kernel.AddBp.{Holdings}
use rw_mem.Kernel.Ioctl.{Macros, Env, as_long, rwmem_ioctl, ioctl_get_process_maps_count}

-- A number tells the macro that made it, and its own number, for a type and a number of eight bits each
-- and a size of fourteen.
pub record AreNumbers (macros : Macros) : Type 0 where
  pub io_iowr :
      (t n u m s : ℕ)
      → t < 256
      → n < 256
      → u < 256
      → m < 256
      → s < 2 ^ 14
      → macros.iowr u m s ≢ macros.io t n
  pub iow_iowr :
      (t n r u m s : ℕ)
      → t < 256
      → n < 256
      → r < 2 ^ 14
      → u < 256
      → m < 256
      → s < 2 ^ 14
      → macros.iowr u m s ≢ macros.iow t n r
  pub iowr_iowr :
      (t n r u m s : ℕ)
      → t < 256
      → n < 256
      → r < 2 ^ 14
      → u < 256
      → m < 256
      → s < 2 ^ 14
      → m ≢ n
      → macros.iowr u m s ≢ macros.iowr t n r

module _ (macros : Macros) (numbers : AreNumbers macros) (env : Env) (h : Holdings) (arg : ℕ)
    (mem : List ℕ) where
  not_count :
      (m : ℕ) → m < 256 → (macros.iowr 100 m 8 == ioctl_get_process_maps_count macros) ≡ false
  not_count m q = ==_false _ _ (
      numbers.iow_iowr 100 0 8 100 m 8 (omega arith) (omega arith) (omega arith) (omega arith) q
        (omega arith))

  not_number :
      (m n : ℕ) → m < 256 → n < 256 → m ≢ n → (macros.iowr 100 m 8 == macros.iowr 100 n 8) ≡ false
  not_number m n p q d = ==_false _ _ (
      numbers.iowr_iowr 100 n 8 100 m 8 (omega arith) q (omega arith) (omega arith) p (omega arith)
        d)

  not_io : (m n : ℕ) → m < 256 → n < 256 → (macros.iowr 100 m 8 == macros.io 100 n) ≡ false
  not_io m n p q =
      ==_false _ _ (numbers.io_iowr 100 n 100 m 8 (omega arith) q (omega arith) p (omega arith))

  pub rwmem_ioctl_count :
      rwmem_ioctl macros env h (ioctl_get_process_maps_count macros) arg mem
      ≡ some (maps_count_ioctl env.pids arg, mem, h)
  unfolding rwmem_ioctl
  rwmem_ioctl_count = rw (==_self (ioctl_get_process_maps_count macros), rwmem_ioctl) refl

  pub rwmem_ioctl_list :
      let (r, mem') = maps_list_ioctl env.pids mem in
      rwmem_ioctl macros env h (macros.iowr 100 1 8) arg mem ≡ some (as_long r, mem', h)
  unfolding rwmem_ioctl
  rwmem_ioctl_list = rw (not_count 1 (omega arith), ==_self (macros.iowr 100 1 8), rwmem_ioctl) refl

  pub rwmem_ioctl_phy :
      let (r, mem') = check_phy_ioctl env.arch env.ptes env.tasks env.kmalloc mem in
      rwmem_ioctl macros env h (macros.iowr 100 2 8) arg mem ≡ some (r, mem', h)
  unfolding rwmem_ioctl
  rwmem_ioctl_phy =
      rw
        (
          not_count 2 (omega arith),
          not_number 2 1 (omega arith) (omega arith) (ground arith),
          ==_self (macros.iowr 100 2 8),
          rwmem_ioctl,
        )
        refl

  -- A request with the number 0 that is made with `_IOWR` is none that the module knows.
  pub rwmem_ioctl_unknown :
      rwmem_ioctl macros env h (macros.iowr 100 0 8) arg mem ≡ some (err einval, mem, h)
  unfolding rwmem_ioctl
  rwmem_ioctl_unknown =
      rw
        (
          not_count 0 (omega arith),
          not_number 0 1 (omega arith) (omega arith) (ground arith),
          not_number 0 2 (omega arith) (omega arith) (ground arith),
          not_number 0 3 (omega arith) (omega arith) (ground arith),
          not_io 0 4 (omega arith) (omega arith),
          not_io 0 5 (omega arith) (omega arith),
          rwmem_ioctl,
        )
        refl
