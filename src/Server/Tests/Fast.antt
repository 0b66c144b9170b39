-- ===== src/Server/Tests/Fast.antt =====
-- Reads and writes through the driver on a small memory.
use rw_mem.Common.{
  ℕ, ◌+◌, ◌≡◌, ap, true, false, Option, none, some, List, [], ◌∷◌, ◌==◌, if◌then◌else◌, take,
  get_or, arith, replicate,
}
use rw_mem.Common.Result.{Result, ok, err, other_error}
use rw_mem.Kernel.Tests.Transfers.{flat_arch-IsPaged, flat_ptes, flat_kernel, all_copies, some_ram}
use rw_mem.Server.Driver.Memory.{Transfer, driver_read_process_memory, driver_write_process_memory}
use rw_mem.Server.Driver.Connection.{Client}
use rw_mem.Server.Driver.Fast.{driver_read_process_memory_fast, driver_write_process_memory_fast}
use rw_mem.Server.Driver.Fast.Writes.{outcome, driver_write_process_memory-fast}
use rw_mem.Server.Driver.Fast.Laws.{AreAlike, driver_read_process_memory-fast}
use rw_mem.Server.Driver.Fast.Reader.{sys_read, kernel_reader}
use rw_mem.Server.Driver.Fast.Served.{
  ReadsMemory, request_buf, driver_read_process_memory-ReadsMemory,
}

abbrev kernel_read : List ℕ → ℕ → Transfer
kernel_read = sys_read flat_kernel some_ram flat_ptes

abbrev room : List ℕ
room = replicate 30 0

driver_read_process_memory-fast_example :
    (r : Transfer) × (kept' : List ℕ) × (driver_read_process_memory_fast kernel_read
        (9 ∷ 9 ∷ [])
        42
        20480
        room
        30
        false
      ≡ some (r, kept'))
    × AreAlike r (driver_read_process_memory kernel_read 42 20480 room 30 false)
driver_read_process_memory-fast_example =
    driver_read_process_memory-fast kernel_read
      (kernel_reader flat_kernel all_copies flat_ptes some_ram) 42 20480 false (9 ∷ 9 ∷ []) room 30
      (omega arith) (omega arith)

driver_read_process_memory-ReadsMemory_example :
    ReadsMemory flat_kernel flat_ptes some_ram
      (request_buf 42 20480 true room)
      42
      20480
      30
      true
      (driver_read_process_memory kernel_read 42 20480 room 30 true)
driver_read_process_memory-ReadsMemory_example =
    driver_read_process_memory-ReadsMemory flat_kernel flat_arch-IsPaged flat_ptes some_ram 42 20480
      room 30 true (λ e. absurd (ground arith)) (omega arith) (λ e. absurd (ground arith))
      (omega arith) (λ e. absurd (ground arith)) (omega arith)

-- A driver that refuses what is forced and writes all else.
abbrev careful_write : List ℕ → ℕ → Option ℕ
careful_write a n = if get_or (take (17 + n) a) 16 0 == 1 then none else some n

driver_write_process_memory-fast_example :
    outcome (driver_write_process_memory_fast careful_write (9 ∷ 9 ∷ []) 42 20480 room 30 false)
    ≡ driver_write_process_memory careful_write 42 20480 room 30 false
driver_write_process_memory-fast_example =
    driver_write_process_memory-fast careful_write
      (λ a b n same. ap (λ (h : List ℕ). if get_or h 16 0 == 1 then none else some n) same)
      (9 ∷ 9 ∷ []) 42 20480 room 30 false (omega arith)

-- A device file that its owner's mode keeps shut until it is changed.
abbrev shut_until_changed : ℕ → Result ℕ
shut_until_changed mode = if mode == 666 then ok 5 else err (other_error 13)

abbrev unconnected : Client
unconnected = record {
  driver_link = none;
  use_bypass_se_linux_mode = false;
  mode = 384;
  closed = [];
}
