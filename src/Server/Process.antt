-- ===== src/Server/Process.antt =====
-- CEServer/api.cpp: OpenProcess and CloseHandle, and how objects get onto the heap and off it.
pub mod Invariant
pub mod Preserve
pub mod Reopen
pub mod Replace
use rw_mem.Common.{
  ℕ, suc, ◌+◌, ◌-◌, ◌^◌, Bool, true, false, Option, none, some, List, [], ltb, ◌==◌, if◌then◌else◌,
}
use rw_mem.Server.Handle.{
  HandleType, Object, open_process, process_list, module_list, thread_list, CeOpenProcess, Server,
  update, create_handle_from_pointer, get_handle_type, get_pointer_from_handle, remove_handle,
  find_handle_by_pid,
}

-- A DWORD as a `uint64_t`: the sign is carried into the upper half.
abbrev pub sign_extend : ℕ → ℕ
sign_extend w = if ltb w (2 ^ 31) then w else w + 2 ^ 64 - 2 ^ 32

-- `new` or `malloc`: a cell at the next address.
unfoldable pub alloc : Server → Object → ℕ × Server
alloc s o = (s.next, record s { heap = update s.heap s.next (some o); next = suc s.next })

-- `delete` or `free`.
unfoldable pub dealloc : Server → ℕ → Server
dealloc s a = record s { heap = update s.heap a none }

-- An object and the handle that stands for it, as every function that makes one ends.
unfoldable pub new_handle : Server → List ℕ → Object → HandleType → Option (ℕ × Server)
unfolding alloc
new_handle s rds o type = let (p, s') = alloc s o in create_handle_from_pointer s' rds p type

-- `CMemoryReaderWriter::OpenProcess`
abbrev pub driver_open_process : ℕ → ℕ
driver_open_process pid = pid

abbrev pub opened : ℕ → CeOpenProcess
opened pid = record {
  pid = pid;
  driver_process_handle = driver_open_process (sign_extend pid);
  last_maps = [];
  last_get_maps_time = 0;
}

-- `CApi::OpenProcess`; `none` if the draws run out.
unfoldable pub open_process_handle : Server → List ℕ → ℕ → Option (ℕ × Server)
open_process_handle s rds pid =
    let hm = find_handle_by_pid s pid in
    let made = new_handle s rds (open_process (opened pid)) HandleType.proces_handle in
    if hm == 0
    then (if driver_open_process (sign_extend pid) == 0 then some (0, s) else made)
    else some (hm, s)

-- The casts of `CloseHandle`: `none` if the pointer's object is not what the handle's type says,
-- where the program would delete garbage.
abbrev pub destroy : HandleType → Option Object → ℕ → Server → Option Server
destroy HandleType.ths_module (some (module_list l i)) p s = some (dealloc s p)
destroy HandleType.ths_process (some (process_list l i)) p s = some (dealloc s p)
destroy HandleType.proces_handle (some (open_process o)) p s = some (dealloc s p)
destroy HandleType.ths_thread (some (thread_list l)) p s = some (dealloc s p)
destroy HandleType.empty _ p s = some s
destroy HandleType.thread_handle _ p s = some s
destroy HandleType.native_thread_handle _ p s = some s
destroy _ _ p s = none

-- `CApi::CloseHandle`
unfoldable pub close_handle : Server → ℕ → Option Server
close_handle s h =
    let ht = get_handle_type s h in
    let pl = get_pointer_from_handle s h in
    elim (destroy ht (s.heap pl) pl s) [ none ↦ none | some s' ↦ some (remove_handle s' h) ]
