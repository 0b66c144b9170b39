-- ===== src/Server/Tests/Handles.antt =====
-- The handle table, the opened processes and the snapshots on small states.
use rw_mem.Common.{
  ℕ, ◌≡◌, refl, Option, none, some, List, [], ◌∷◌, arith, lookup, if◌then◌else◌, ◌==◌,
}
use rw_mem.Server.Handle.{
  HandleType, Object, module_list, Server, draw_handle, fresh_handle, find_handle_by_pid, find_in,
  create_handle_from_pointer, RegionInfo,
}
use rw_mem.Server.Process.{open_process_handle, close_handle, new_handle, alloc}
use rw_mem.Server.Process.Invariant.{IsWellFormed, handle_pid}
use rw_mem.Server.Process.Preserve.{close_handle_lem, open_process_handle-IsWellFormed}
use rw_mem.Server.Process.Reopen.{Finds, find_handle_by_pid-Finds, open_process_handle_again}
use rw_mem.Server.Snapshot.{
  Environment, create_toolhelp32_snapshot, atoi, atoi_from, add_regions, snapshot_threads,
  collect_tids,
}
use rw_mem.Server.Snapshot.Modules.{AreDistinct, find_size, expected_size, add_regions_lem}
use rw_mem.Server.Toolhelp.{walk, put}
use rw_mem.Server.Toolhelp.Walk.{walk_lem}
use rw_mem.Server.Dispatch.Calls.{create_toolhelp32_snapshot-IsWellFormed}
use rw_mem.Server.Tests.{
  empty_server, empty_server-IsWellFormed, draws, draws-AreWords, one_handle, one_process,
  one_process-IsWellFormed, two_modules, one_snapshot,
}

find_handle_by_pid-Finds_example :
    Finds one_process.heap one_process.handles 42 (find_handle_by_pid one_process 42)
find_handle_by_pid-Finds_example = find_handle_by_pid-Finds one_process 42 one_process-IsWellFormed

open_process_handle_again_example :
    (handle_pid one_process 10001 ≡ some 42)
    × (open_process_handle one_process [] 42 ≡ some (10001, one_process))
unfolding open_process_handle new_handle alloc create_handle_from_pointer fresh_handle
    find_handle_by_pid find_in draw_handle
open_process_handle_again_example =
    open_process_handle_again empty_server one_process draws [] 42 10001 empty_server-IsWellFormed
      draws-AreWords refl (λ e. absurd (omega arith))

open_process_handle-IsWellFormed_example : IsWellFormed one_process
unfolding open_process_handle new_handle alloc create_handle_from_pointer fresh_handle
    find_handle_by_pid find_in draw_handle
open_process_handle-IsWellFormed_example =
    open_process_handle-IsWellFormed empty_server draws 42 {h = 10001} empty_server-IsWellFormed
      draws-AreWords refl

close_handle_lem_example :
    (t : Server) × (close_handle one_process 10001 ≡ some t)
    × IsWellFormed t
    × ((k : ℕ) → lookup k t.handles ≡ (if 10001 == k then none else lookup k one_process.handles))
close_handle_lem_example = close_handle_lem one_process 10001 one_process-IsWellFormed

abbrev no_files : Environment
no_files = record {
  proc_dir = none;
  cmdline = λ _. some [];
  task_dir = λ _. some ((b'7' ∷ []) ∷ []);
  maps = λ _. [];
  read_magic = λ _ _. none;
}

abbrev one_thread_list : Server
one_thread_list = one_handle HandleType.ths_thread (Object.thread_list (7 ∷ []))

create_toolhelp32_snapshot-IsWellFormed_example : IsWellFormed one_thread_list
unfolding create_toolhelp32_snapshot new_handle alloc create_handle_from_pointer fresh_handle
    draw_handle snapshot_threads collect_tids atoi atoi_from
create_toolhelp32_snapshot-IsWellFormed_example =
    create_toolhelp32_snapshot-IsWellFormed no_files empty_server draws 4 42 {h = 10001}
      empty_server-IsWellFormed draws-AreWords refl

abbrev two_areas : List RegionInfo
two_areas =
    record { baseaddress = 4096; size = 8192; protection = 2; type = 131072; name = b'a' ∷ [] }
    ∷ record { baseaddress = 12288; size = 4096; protection = 4; type = 131072; name = b'a' ∷ [] }
    ∷ []

abbrev elf_header : ℕ → Option ℕ
elf_header _ = some 1179403647

add_regions_lem_example :
    AreDistinct (add_regions elf_header two_areas [])
    × ((n : List ℕ)
        → find_size n (add_regions elf_header two_areas []) ≡ expected_size elf_header n two_areas)
add_regions_lem_example = add_regions_lem elf_header two_areas

walk_lem_example :
    walk 2 one_snapshot 10001 ≡ some (two_modules, put one_snapshot 1 (module_list two_modules 2))
walk_lem_example =
    walk_lem 10001 (record { p = 1; type = HandleType.ths_module }) two_modules one_snapshot 1 2
      (λ e. absurd (omega arith)) (refl, refl, refl) (omega arith)
