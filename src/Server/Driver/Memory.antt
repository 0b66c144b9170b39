-- ===== src/Server/Driver/Memory.antt =====
-- CEServer/MemoryReaderWriter37.hpp and CEServer/api.cpp: how the server reads and writes the memory
-- of a process through the driver's `read` and `write`.
--
-- The system calls are arguments: the result (`none` for -1), and for `read` the buffer afterwards.
-- The buffer has the size that is asked for, as at every call, and `read` gives no more than it is
-- asked for. The tests of the driver's file number are
-- left out: the program ends at its start if it has none that it can use.
pub mod Laws
use rw_mem.Common.{
  ℕ, ◌+◌, ◌-◌, ◌^◌, ◌%◌, Bool, true, false, Option, none, some, List, [], ◌∷◌, ◌++◌, ltb, leb, ◌==◌,
  if◌then◌else◌, length, take, drop, replicate, store,
}
use rw_mem.Server.Handle.{
  Object, open_process, Server, get_handle_type, get_pointer_from_handle, is_process,
}
use rw_mem.Server.Snapshot.{driver_handle}
use rw_mem.Server.Process.{sign_extend}

-- The request's 17 bytes: the process, the address, and whether to force it.
unfoldable pub header : ℕ → ℕ → Bool → List ℕ
header process address force =
    store 8 process ++ (store 8 address ++ ((if force then 1 else 0) ∷ []))

-- How a call ends: FALSE, or TRUE and the count; with the caller's buffer.
abbrev pub Transfer : Type 0
Transfer = Option ℕ × List ℕ

abbrev pub is_positive : Option ℕ → Bool
is_positive none = false
is_positive (some n) = ltb 0 n

-- `_rwProcMemDriver_ReadProcessMemory` once its arguments are accepted and `read` has been called: the
-- small reads go through a buffer of their own, the others use the caller's.
unfoldable pub read_done : List ℕ → ℕ → Transfer → Transfer
read_done buffer n_size (none, filled) = (none, if ltb n_size 17 then buffer else filled)
read_done buffer n_size (some n, filled) =
    if n == 0
    then (none, if ltb n_size 17 then buffer else filled)
    else (some n, if ltb n_size 17 then take n filled ++ drop n buffer else filled)

module _ (sys_read : List ℕ → ℕ → Transfer) where
  unfoldable pub driver_read_process_memory : ℕ → ℕ → List ℕ → ℕ → Bool → Transfer
  driver_read_process_memory process address buffer n_size force =
      let head = header process address force in
      if address == 0
      then (none, buffer)
      else if process == 0
      then (none, buffer)
      else if n_size == 0
      then (none, buffer)
      else read_done buffer n_size
          (sys_read (if ltb n_size 17 then head else head ++ drop 17 buffer) n_size)

  -- `CApi::ReadProcessMemory`: the count and the buffer; `none` is a pointer to what is not an
  -- opened process.
  unfoldable pub read_process_memory : Server → ℕ → ℕ → List ℕ → ℕ → Option (ℕ × List ℕ)
  read_process_memory s h address buffer size =
      if is_process (get_handle_type s h)
      then elim (driver_handle (s.heap (get_pointer_from_handle s h))) [
        | none ↦ none
        | some process ↦
            let (result, filled) =
              driver_read_process_memory process address buffer (sign_extend size) false in
            elim result [ none ↦ some (0, filled) | some n ↦ some (n % 2 ^ 32, filled) ]
      ]
      else some (0, buffer)

module _ (sys_write : List ℕ → ℕ → Option ℕ) where
  -- `_rwProcMemDriver_WriteProcessMemory`: the data stand behind the header, and the size that is
  -- given to `write` is the data's alone. The buffer's size is an `int`: where the size and the 17 do
  -- not fit one, the buffer is not there or is too small, and the copy into it is the fault `none`.
  unfoldable pub driver_write_process_memory : ℕ → ℕ → List ℕ → ℕ → Bool → Option (Option ℕ)
  driver_write_process_memory process address buffer n_size force =
      let written = sys_write (header process address force ++ take n_size buffer) n_size in
      if address == 0
      then some none
      else if process == 0
      then some none
      else if n_size == 0
      then some none
      else if leb (2 ^ 31) (n_size + 17)
      then none
      else if is_positive written
      then some written
      else some none

  -- `CApi::WriteProcessMemory`: the count; `none` is a pointer to what is not an opened process, or a
  -- buffer that is not there.
  unfoldable pub write_process_memory : Server → ℕ → ℕ → List ℕ → ℕ → Option ℕ
  write_process_memory s h address buffer size =
      if is_process (get_handle_type s h)
      then elim (driver_handle (s.heap (get_pointer_from_handle s h))) [
        | none ↦ none
        | some process ↦
            elim (driver_write_process_memory process address buffer (sign_extend size) false) [
              | none ↦ none
              | some none ↦ some 0
              | some (some n) ↦ some (n % 2 ^ 32)
            ]
      ]
      else some 0
