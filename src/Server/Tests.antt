-- ===== src/Server/Tests.antt =====
-- Runs of the server's parts on small states: an empty server, one with an opened process, and one
-- with a snapshot of two modules.
mod Handles
mod Areas
mod Connections
mod Residency
mod Requests
mod Fast
use rw_mem.Common.{ℕ, ◌≡◌, refl, ◌≢◌, Option, none, some, List, [], ◌∷◌, All, arith}
use rw_mem.Server.Handle.{
  HandleType, Object, open_process, module_list, HandleInfo, Server, ModuleListEntry, update,
  fresh_handle, create_handle_from_pointer, find_handle_by_pid, find_in, draw_handle,
}
use rw_mem.Server.Process.{new_handle, open_process_handle, opened, alloc}
use rw_mem.Server.Process.Invariant.{IsWellFormed}
use rw_mem.Server.Process.Preserve.{AreWords, new_handle-IsWellFormed}

abbrev pub empty_server : Server
empty_server = record { handles = []; heap = λ _. none; next = 1 }

pub empty_server-IsWellFormed : IsWellFormed empty_server
empty_server-IsWellFormed = record {
  sorted = tt;
  live = λ h i e. absurd (ground arith);
  apart = λ h k i j e f q. absurd (ground arith);
  owned = λ a o e. absurd (ground arith);
  fresh = λ a q. refl;
}

abbrev pub draws : List ℕ
draws = 1000 ∷ []

pub draws-AreWords : AreWords draws
draws-AreWords = (omega arith, tt)

abbrev pub one_handle : HandleType → Object → Server
one_handle type o = record {
  handles = (10001, record { p = 1; type = type }) ∷ [];
  heap = update (λ _. none) 1 (some o);
  next = 2;
}

abbrev pub one_process : Server
one_process = one_handle HandleType.proces_handle (open_process (opened 42))

pub one_process-IsWellFormed : IsWellFormed one_process
unfolding new_handle alloc create_handle_from_pointer fresh_handle draw_handle
one_process-IsWellFormed =
    new_handle-IsWellFormed empty_server draws (open_process (opened 42)) {h = 10001}
      empty_server-IsWellFormed draws-AreWords refl

abbrev pub two_modules : List ModuleListEntry
two_modules =
    record { base_address = 4096; module_size = 8192; module_name = b'a' ∷ [] }
    ∷ record { base_address = 65536; module_size = 4096; module_name = b'b' ∷ b'c' ∷ [] }
    ∷ []

abbrev pub one_snapshot : Server
one_snapshot = one_handle HandleType.ths_module (module_list two_modules 1)

pub one_snapshot-IsWellFormed : IsWellFormed one_snapshot
unfolding new_handle alloc create_handle_from_pointer fresh_handle draw_handle
one_snapshot-IsWellFormed =
    new_handle-IsWellFormed empty_server draws (module_list two_modules 1) {h = 10001}
      empty_server-IsWellFormed draws-AreWords refl
