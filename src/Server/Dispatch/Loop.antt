-- ===== src/Server/Dispatch/Loop.antt =====
-- CEServer/main.cpp: the switch of DispatchCommand, the loop of newConnectionThread, and what
-- IdentifierThread answers.
use rw_mem.Common.{
  ℕ, ◌*◌, ◌%◌, ◌^◌, true, false, Option, none, some, List, [], ◌∷◌, ◌++◌, ◌==◌, if◌then◌else◌,
  store, load, take,
}
use rw_mem.Server.Handle.{Server}
use rw_mem.Server.Socket.{count, zero_returned, minus_one, waiting, recvall}
use rw_mem.Server.Dispatch.{
  Connection, Machine, Dispatched, returned, exited, blocked, faulted, send, close,
}
use rw_mem.Server.Dispatch.Command.{
  get_version, get_architecture, close_handle_command, snapshot_command, process32_command,
  module32_command, open_process_command, read_command, write_command, query_full_command,
  query_command, symbol_list_command, aob_scan_command,
}
use rw_mem.Server.Dispatch.Modules.{snapshot_ex_command}

-- The commands that the switch tells apart.
pub data Command : Type 0 where
  getversion closeconnection terminateserver openprocess : Command
  createtoolhelp32snapshot process32first process32next closehandle : Command
  virtualqueryex readprocessmemory writeprocessmemory getarchitecture : Command
  module32first module32next getsymbollistfromfile virtualqueryexfull : Command
  getregioninfo getabi createtoolhelp32snapshotex getoptions isandroid aobscan : Command

abbrev command_codes : List (ℕ × Command)
command_codes =
    (0, getversion)
    ∷ (1, closeconnection)
    ∷ (2, terminateserver)
    ∷ (3, openprocess)
    ∷ (4, createtoolhelp32snapshot)
    ∷ (5, process32first)
    ∷ (6, process32next)
    ∷ (7, closehandle)
    ∷ (8, virtualqueryex)
    ∷ (9, readprocessmemory)
    ∷ (10, writeprocessmemory)
    ∷ (21, getarchitecture)
    ∷ (22, module32first)
    ∷ (23, module32next)
    ∷ (24, getsymbollistfromfile)
    ∷ (31, virtualqueryexfull)
    ∷ (32, getregioninfo)
    ∷ (33, getabi)
    ∷ (35, createtoolhelp32snapshotex)
    ∷ (37, getoptions)
    ∷ (45, isandroid)
    ∷ (200, aobscan)
    ∷ []

abbrev code_in : List (ℕ × Command) → ℕ → Option Command
code_in [] code = none
code_in ((n, command) ∷ more) code = if code == n then some command else code_in more code

-- The case of a command's byte; `none` for a command that is not supported or not known, which
-- the switch only reports.
unfoldable pub command_of : ℕ → Option Command
command_of code = code_in command_codes code

-- The case's body. The build is not an Android one.
unfoldable pub run : Command → Machine → Server → Connection → Dispatched
run getversion m s c = get_version s c
run closeconnection m s c = returned s (close c)
run terminateserver m s c = exited s (close c)
run openprocess m s c = open_process_command m s c
run createtoolhelp32snapshot m s c = snapshot_command m s c
run process32first m s c = process32_command true s c
run process32next m s c = process32_command false s c
run closehandle m s c = close_handle_command s c
run virtualqueryex m s c = query_command false m s c
run getregioninfo m s c = query_command true m s c
run readprocessmemory m s c = read_command m s c
run writeprocessmemory m s c = write_command m s c
run getarchitecture m s c = get_architecture s c
run module32first m s c = module32_command true s c
run module32next m s c = module32_command false s c
run getsymbollistfromfile m s c = symbol_list_command s c
run virtualqueryexfull m s c = query_full_command m s c
run getabi m s c = returned s (send (1 ∷ []) c)
run createtoolhelp32snapshotex m s c = snapshot_ex_command m s c
run getoptions m s c = returned s (send (store 2 0) c)
run isandroid m s c = returned s (send (0 ∷ []) c)
run aobscan m s c = aob_scan_command s c

-- `DispatchCommand`
unfoldable pub dispatch_command : Machine → Server → ℕ → Connection → Dispatched
dispatch_command m s code c = elim (command_of code) [
  | none ↦ returned s c
  | some command ↦ run command m s c
]

-- How a connection's thread stands: the connection is closed, the program has exited, it waits for
-- bytes, it has faulted, or it goes on.
pub data Thread : Type 0 where
  finished : Server → Connection → Thread
  program_exited : Server → Connection → Thread
  waits : Thread
  crashed : Thread
  runs : Server → Connection → Thread

abbrev pub after : Dispatched → Thread
after (returned s c) = runs s c
after (exited s c) = program_exited s c
after blocked = waits
after faulted = crashed

-- One round of `newConnectionThread`: a byte, and the command that it stands for.
unfoldable pub round : Machine → Server → Connection → Thread
round m s c =
    let (r, got, rest) = recvall c.incoming 1 in
    let c' : Connection = record c { incoming = rest } in
    elim r [
      | count n ↦ after (dispatch_command m s (load got) c')
      | zero_returned ↦ finished s (close c')
      | minus_one ↦ finished s (close c')
      | waiting ↦ waits
    ]

-- So many rounds, each with its machine.
unfoldable pub connection_thread : List Machine → Server → Connection → Thread
connection_thread [] s c = runs s c
connection_thread (m ∷ ms) s c = elim (round m s c) [
  | runs s' c' ↦ connection_thread ms s' c'
  | finished s' c' ↦ finished s' c'
  | program_exited s' c' ↦ program_exited s' c'
  | waits ↦ waits
  | crashed ↦ crashed
]

-- The packet of IdentifierThread's answer: the checksum that came times 0xce, and the port.
unfoldable pub identify : List ℕ → List ℕ
identify packet = store 4 (load (take 4 packet) * 206 % 2 ^ 32) ++ store 2 3168
