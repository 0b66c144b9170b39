-- ===== src/Server/Driver/Fast.antt =====
-- CEServer/MemoryReaderWriter37.hpp: the reads and writes that keep their buffer for the next call.
--
-- A kept buffer is the list of its bytes, [] before the first call. Sizes whose buffer does not fit an
-- `int` are the fault `none`. What `malloc` leaves in a new buffer for writes is zeros here; all that is
-- handed on is written over.
pub mod Laws
pub mod Writes
pub mod Reader
pub mod Served
use rw_mem.Common.{
  ℕ, ◌+◌, ◌-◌, ◌^◌, ◌%◌, Bool, true, false, Option, none, some, List, [], ◌∷◌, ◌++◌, max, ltb, leb,
  ◌==◌, if◌then◌else◌, length, take, drop, replicate,
}
use rw_mem.Server.Driver.Memory.{header, Transfer, is_positive}

-- `lastMallocReadMemBuf` with its first bytes set to zero: the kept buffer, or a larger one.
unfoldable pub read_buffer : List ℕ → ℕ → List ℕ
read_buffer kept buf_size =
    if ltb (length kept) buf_size
    then replicate buf_size 0
    else replicate buf_size 0 ++ drop buf_size kept

-- Behind the call of `read`.
abbrev pub fast_done : List ℕ → Transfer → Transfer
fast_done buffer (none, filled) = (none, buffer)
fast_done buffer (some n, filled) =
    if n == 0 then (none, buffer) else (some n, take n filled ++ drop n buffer)

module _ (sys_read : List ℕ → ℕ → Transfer) where
  -- `_rwProcMemDriver_ReadProcessMemory_Fast`: how it ends, and the kept buffer.
  unfoldable pub driver_read_process_memory_fast :
      List ℕ → ℕ → ℕ → List ℕ → ℕ → Bool → Option (Transfer × List ℕ)
  unfolding read_buffer
  driver_read_process_memory_fast kept process address buffer n_size force =
      let buf_size = max 17 n_size in
      let request = header process address force ++ drop 17 (read_buffer kept buf_size) in
      let answer = sys_read request n_size in
      if address == 0
      then some ((none, buffer), kept)
      else if process == 0
      then some ((none, buffer), kept)
      else if n_size == 0
      then some ((none, buffer), kept)
      else if leb (2 ^ 31) buf_size
      then none
      else some (fast_done buffer answer, answer.1)

-- `lastMallocWriteMemBuf`: the kept buffer, or a larger one.
unfoldable pub write_buffer : List ℕ → ℕ → List ℕ
write_buffer kept buf_size = if ltb (length kept) buf_size then replicate buf_size 0 else kept

module _ (sys_write : List ℕ → ℕ → Option ℕ) where
  -- `_rwProcMemDriver_WriteProcessMemory_Fast`: the count, and the kept buffer.
  unfoldable pub driver_write_process_memory_fast :
      List ℕ → ℕ → ℕ → List ℕ → ℕ → Bool → Option (Option ℕ × List ℕ)
  unfolding write_buffer
  driver_write_process_memory_fast kept process address buffer n_size force =
      let buf_size = n_size + 17 in
      let request =
        header process address force
        ++ (take n_size buffer ++ drop buf_size (write_buffer kept buf_size)) in
      let written = sys_write request n_size in
      if address == 0
      then some (none, kept)
      else if process == 0
      then some (none, kept)
      else if n_size == 0
      then some (none, kept)
      else if leb (2 ^ 31) buf_size
      then none
      else if is_positive written
      then some (written, request)
      else some (none, request)
