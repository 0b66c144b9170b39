-- ===== src/Server/Driver/Residency/Shown.antt =====
-- What CEServer/MemoryReaderWriter37.hpp shows of an area, on the request of rwMem/sys.c for its pages.
use rw_mem.Common.{
  ℕ, ◌+◌, ◌-◌, ◌*◌, ◌/◌, ◌%◌, ◌^◌, ◌≤◌, ◌<◌, ◌≡◌, ◌≢◌, Bool, true, some, List, arith, length,
}
use rw_mem.Kernel.Paging.{Arch, Ptes}
use rw_mem.Kernel.Residency.{Tasks, is_resident, check_phy_ioctl}
use rw_mem.Kernel.Residency.Bitmap.{Holds}
use rw_mem.Kernel.Residency.Request.{check_phy_ioctl_lem}
use rw_mem.Server.Handle.{RegionInfo}
use rw_mem.Server.Driver.Residency.{ptr_buf, check_mem_addr_is_valid, resident_parts}
use rw_mem.Server.Driver.Residency.Runs.{AreRuns, phy_loop-AreRuns}
use rw_mem.Server.Driver.Residency.Params.{
  ptr_buf-pid, ptr_buf-begin, ptr_buf-end, length-ptr_buf, buf_size_bounds, is_phy-bit_at,
  is_positive_int_of, answered_valid, shown_parts,
}

-- A process that the driver finds.
module _ (arch : Arch) (ptes : Ptes) (tasks : Tasks) (process task : ℕ) (some_process : process ≢ 0)
    (found : tasks.find_get_pid (process % 2 ^ 32) ≡ true)
    (alive : tasks.pid_task (process % 2 ^ 32) ≡ some task) where
  check_mem_addr_is_valid-Holds :
      (start end : ℕ)
      → start % 4096 ≡ 0
      → end % 4096 ≡ 0
      → start < end
      → end < 2 ^ 64
      → (end - start) / 4096 < 2 ^ 31
      → (new : List ℕ) × (check_mem_addr_is_valid
            (check_phy_ioctl arch ptes tasks true)
            process
            start
            end
          ≡ some new)
        × Holds
            (λ p. is_resident arch ptes task (start + 4096 * p))
            ((end - start) / 4096)
            (ptr_buf process start end)
            new
        × (((end - start) / 4096 + 7) / 8 ≤ length new)
  check_mem_addr_is_valid-Holds start end a b order top small =
      let (least, room) = buf_size_bounds process start end a b order top small in
      let long = length-ptr_buf process start end least in
      let (new, same, h) =
        check_phy_ioctl_lem arch ptes tasks (ptr_buf process start end) (process % 2 ^ 32) task
          start end (omega arith) (ptr_buf-pid process start end)
          (ptr_buf-begin process start end (omega arith)) (ptr_buf-end process start end top) a b
          order top found alive (omega arith) in
      (
        new,
        answered_valid (check_phy_ioctl arch ptes tasks true) process start end
            ((end - start) / 4096) new some_process same
            (is_positive_int_of ((end - start) / 4096) (omega arith) small),
        h,
        omega (arith, h.same_length),
      )

  -- An area of whole pages, whose count fits an `int`, is shown as its runs of pages that lie in physical
  -- memory and can be read, and no look goes past the map of bits.
  pub resident_parts-kernel :
      (r : RegionInfo)
      → r.baseaddress % 4096 ≡ 0
      → r.size % 4096 ≡ 0
      → 0 < r.size
      → r.baseaddress + r.size < 2 ^ 64
      → r.size / 4096 < 2 ^ 31
      → (qs : List RegionInfo) × (resident_parts (check_phy_ioctl arch ptes tasks true) process r
          ≡ some qs)
        × AreRuns r
            (r.size / 4096)
            (λ p. is_resident arch ptes task (r.baseaddress + 4096 * p))
            0
            qs
  resident_parts-kernel r a b order top small =
      let n = r.size / 4096 in
      let end = r.baseaddress + r.size in
      let resident : ℕ → Bool = λ p. is_resident arch ptes task (r.baseaddress + 4096 * p) in
      let (new, same, h, room) =
        check_mem_addr_is_valid-Holds r.baseaddress end a (omega arith) (omega arith) top
          (omega arith) in
      let pages : (end - r.baseaddress) / 4096 ≡ n = omega arith in
      let whole : (r.baseaddress + r.size) % 2 ^ 64 ≡ end = omega arith in
      let rounds : (end + 4095 - r.baseaddress) / 4096 ≡ n = omega arith in
      let (qs, shown, runs) =
        phy_loop-AreRuns r n resident new end (omega arith) top
          (λ p lt. is_phy-bit_at new p n resident (omega arith) lt (h.bits p (omega arith))) in
      (
        qs,
        shown_parts (check_phy_ioctl arch ptes tasks true) process end n r new qs whole same rounds
            shown,
        runs,
      )
