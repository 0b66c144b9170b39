-- ===== src/Server/Tests/Connections.antt =====
-- Sockets, commands and connections on small inputs.
use rw_mem.Common.{
  ℕ, ◌≤◌, ◌≡◌, refl, false, none, List, [], ◌∷◌, ◌++◌, arith, All, lookup, length, take, store,
  if◌then◌else◌, ◌==◌, replicate, load, Option, some,
}
use rw_mem.Server.Handle.{
  HandleType, Server, RegionInfo, ModuleListEntry, module_list, create_handle_from_pointer,
  fresh_handle, draw_handle,
}
use rw_mem.Server.Process.Invariant.{IsWellFormed}
use rw_mem.Server.Socket.{
  Arrival, bytes, interrupted, end_of_stream, Room, takes, retry, recvall, sendall,
}
use rw_mem.Server.Socket.Laws.{Received, Sent, recvall_lem, sendall_lem}
use rw_mem.Server.Dispatch.{Connection, Machine, returned}
use rw_mem.Server.Dispatch.Command.{read_reply}
use rw_mem.Server.Dispatch.Command.Blocks.{joined, read_reply_lem}
use rw_mem.Server.Dispatch.Modules.{modules_reply, end_of_list}
use rw_mem.Server.Dispatch.Modules.Stream.{bytes_of, entries, put_all, modules_reply_lem}
use rw_mem.Server.Dispatch.Modules.Fits.{Fits, modules_reply-Fits}
use rw_mem.Server.Dispatch.Loop.{connection_thread}
use rw_mem.Server.Dispatch.Invariant.{StaysWell, connection_thread-StaysWell}
use rw_mem.Server.Driver.{read_entry, read_entries}
use rw_mem.Server.Snapshot.{add_regions}
use rw_mem.Server.Process.{new_handle, alloc}
use rw_mem.Server.Process.Preserve.{new_handle-IsWellFormed}
use rw_mem.Server.Tests.{
  one_handle, empty_server, empty_server-IsWellFormed, draws, draws-AreWords, two_modules,
  one_snapshot, one_snapshot-IsWellFormed,
}

abbrev some_arrivals : List Arrival
some_arrivals = bytes (1 ∷ 2 ∷ []) ∷ interrupted ∷ bytes (3 ∷ 4 ∷ []) ∷ []

recvall_lem_example : Received 3 some_arrivals (recvall some_arrivals 3)
recvall_lem_example = recvall_lem some_arrivals 3

abbrev some_rooms : List Room
some_rooms = takes 1 ∷ retry ∷ takes 7 ∷ []

sendall_lem_example : Sent (1 ∷ 2 ∷ 3 ∷ []) (sendall some_rooms (1 ∷ 2 ∷ 3 ∷ []))
sendall_lem_example = sendall_lem some_rooms (1 ∷ 2 ∷ 3 ∷ [])

abbrev some_bytes : List ℕ
some_bytes = 5 ∷ 6 ∷ 7 ∷ []

abbrev bare_machine : Machine
bare_machine = record {
  env = record {
    proc_dir = none;
    cmdline = λ _. some [];
    task_dir = λ _. none;
    maps = λ _. [];
    read_magic = λ _ _. none;
  };
  physical_maps = λ _. [];
  sys_read = λ buffer _. (none, buffer);
  sys_write = λ _ _. none;
  now = 0;
  later = 0;
  rands = draws;
  compress = λ _ plain. plain;
  garbage = 0;
}

read_reply_lem_example :
    (joined (read_reply bare_machine 1 2 some_bytes) ≡ (
      if 1 == 0
      then store 4 2 ++ take 2 some_bytes
      else store 4 2 ++ (store 4 (length (take 2 some_bytes)) ++ take 2 some_bytes)))
    × ((1 == 0 ≡ false) → All (λ b. length b ≤ 65536) (read_reply bare_machine 1 2 some_bytes))
read_reply_lem_example = read_reply_lem bare_machine 1 2 some_bytes

abbrev quiet : Connection
quiet = record { incoming = []; sent = []; closes = 0 }

modules_reply_lem_example :
    (t : Server) × (c : Connection) × (modules_reply bare_machine 10001 one_snapshot quiet
      ≡ returned t c)
    × (bytes_of c.sent ≡ [] ++ (entries two_modules ++ end_of_list 0))
    × IsWellFormed t
    × (lookup 10001 t.handles ≡ none)
modules_reply_lem_example =
    modules_reply_lem bare_machine one_snapshot quiet 10001
      (record { p = 1; type = HandleType.ths_module }) two_modules 1 one_snapshot-IsWellFormed
      (λ e. absurd (omega arith)) (refl, refl, refl)

-- An entry of the driver's list, and the module that is made of it.
abbrev listed_entry : List ℕ
listed_entry = store 8 4096 ++ (store 8 12288 ++ (1 ∷ 0 ∷ 1 ∷ 0 ∷ b'a' ∷ replicate 511 0))

abbrev listed_region : RegionInfo
listed_region = record {
  baseaddress = 4096;
  size = 8192;
  protection = 32;
  type = 131072;
  name = b'a' ∷ [];
}

abbrev all_elf : ℕ → Option ℕ
all_elf _ = some 0x464c457f

abbrev listed_snapshot : Server
listed_snapshot =
    one_handle HandleType.ths_module (module_list (add_regions all_elf (listed_region ∷ []) []) 0)

listed_snapshot-IsWellFormed : IsWellFormed listed_snapshot
unfolding new_handle alloc create_handle_from_pointer fresh_handle draw_handle
listed_snapshot-IsWellFormed =
    new_handle-IsWellFormed empty_server draws
      (module_list (add_regions all_elf (listed_region ∷ []) []) 0) {h = 10001}
      empty_server-IsWellFormed draws-AreWords refl

listed_entry-read : read_entries 1 listed_entry ≡ some (listed_region ∷ [])
unfolding read_entries read_entry store load
listed_entry-read = refl

modules_reply-Fits_example :
    ((before after : List ModuleListEntry)
      → add_regions all_elf (listed_region ∷ []) [] ≡ before ++ after
      → Fits (put_all before ([], quiet)))
    × ((t : Server) × (c : Connection) × (modules_reply bare_machine 10001 listed_snapshot quiet
          ≡ returned t c)
        × All (λ b. length b ≤ 65536) c.sent)
modules_reply-Fits_example =
    modules_reply-Fits bare_machine listed_snapshot quiet 10001
      (record { p = 1; type = HandleType.ths_module }) all_elf 1 listed_entry (listed_region ∷ []) 0
      listed_entry-read listed_snapshot-IsWellFormed (λ e. absurd (omega arith)) (refl, refl, refl)
      tt

abbrev open_and_leave : Connection
open_and_leave = record {
  incoming = bytes (3 ∷ 42 ∷ 0 ∷ 0 ∷ 0 ∷ []) ∷ end_of_stream ∷ [];
  sent = [];
  closes = 0;
}

connection_thread-StaysWell_example :
    StaysWell (connection_thread (bare_machine ∷ bare_machine ∷ []) empty_server open_and_leave)
connection_thread-StaysWell_example =
    connection_thread-StaysWell (bare_machine ∷ bare_machine ∷ []) empty_server open_and_leave
      (draws-AreWords, (draws-AreWords, tt)) empty_server-IsWellFormed

abbrev closing : Connection
closing = record { incoming = bytes (17 ∷ 39 ∷ 0 ∷ 0 ∷ []) ∷ []; sent = []; closes = 0 }
