-- ===== src/Server/Driver/Requests/Laws.antt =====
-- The requests of CEServer/MemoryReaderWriter37.hpp, by which function of rwMem/sys.c answers them.
use rw_mem.Common.{ℕ, ◌≡◌, refl, ap, ◌∙◌, Bool, true, false, List, [], ◌==◌, Bool-cases, inl, inr}
use rw_mem.Common.Result.{Result, ok, err, einval}
use rw_mem.Kernel.Maps.{maps_list_ioctl}
use rw_mem.Kernel.Residency.{check_phy_ioctl}
use rw_mem.Kernel.AddBp.{Holdings}
use rw_mem.Kernel.Ioctl.{Macros, Env, as_long}
use rw_mem.Kernel.Ioctl.Laws.{AreNumbers, rwmem_ioctl_list, rwmem_ioctl_phy, rwmem_ioctl_unknown}
use rw_mem.Server.Driver.{virtual_query_ex_full, failed}
use rw_mem.Server.Driver.Residency.{virtual_query_ex_full_phy}
use rw_mem.Server.Driver.Requests.{
  seen, as_flag, my_ioctl, count_request, list_request, phy_request,
}

as_flag-as_long : (r : Result Bool) → as_flag (as_long r) ≡ r
as_flag-as_long (err e) = refl
as_flag-as_long (ok true) = refl
as_flag-as_long (ok false) = refl

module _ (macros : Macros) (numbers : AreNumbers macros) (env : Env) (h : Holdings) where
  -- The requests of the client for the list of areas and for the pages in physical memory are answered by
  -- the kernel module's functions for them.
  pub requests_lem :
      (buf : ℕ) (mem : List ℕ)
      → (list_request macros env h buf mem ≡ maps_list_ioctl env.pids mem)
        × (phy_request macros env h buf mem
            ≡ check_phy_ioctl env.arch env.ptes env.tasks env.kmalloc mem)
  unfolding list_request phy_request my_ioctl
  requests_lem buf mem =
      let (r, mem') = maps_list_ioctl env.pids mem in
      (
        ap (λ o. let (a, m) = seen mem o in (as_flag a, m))
              (rwmem_ioctl_list macros numbers env h buf mem)
            ∙ ap (λ (a : Result Bool). (a, mem')) (as_flag-as_long r),
        ap (seen mem) (rwmem_ioctl_phy macros numbers env h buf mem),
      )

  count_request_unknown : (process : ℕ) → count_request macros env h process ≡ err einval
  unfolding count_request my_ioctl
  count_request_unknown process =
      ap (λ o. (seen [] o).0) (rwmem_ioctl_unknown macros numbers env h process [])

  -- If the kernel's macros make different numbers for different requests, the client's number of the
  -- request for the count of areas is none that the kernel module knows, so that both queries for the areas of a process fail, for every process and whatever the module holds.
  pub virtual_query_ex_full-count_request :
      (connected : Bool) (buf process : ℕ)
      → (virtual_query_ex_full connected
            (count_request macros env h)
            (list_request macros env h buf)
            process
          ≡ failed)
        × (virtual_query_ex_full_phy
              (phy_request macros env h buf)
              connected
              (count_request macros env h)
              (list_request macros env h buf)
              process
            ≡ failed)
  unfolding virtual_query_ex_full virtual_query_ex_full_phy
  virtual_query_ex_full-count_request false buf process = (refl, refl)
  virtual_query_ex_full-count_request true buf process = elim (Bool-cases (process == 0)) [
    | inl y ↦ (rw (y, virtual_query_ex_full) refl, rw (y, virtual_query_ex_full_phy) refl)
    | inr n ↦ (
      rw (n, count_request_unknown process, virtual_query_ex_full) refl,
      rw (n, count_request_unknown process, virtual_query_ex_full_phy) refl,
    )
  ]
