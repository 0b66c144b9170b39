-- ===== src/Server/Dispatch/Command.antt =====
-- CEServer/main.cpp: the cases of DispatchCommand but for the snapshots that are sent at once.
pub mod Blocks
use rw_mem.Common.{
  ℕ, zero, suc, ◌+◌, ◌-◌, ◌*◌, ◌/◌, ◌%◌, ◌^◌, Bool, true, false, ◌&&◌, Option, none, some, List, [],
  ◌∷◌, ◌++◌, ltb, leb, ◌==◌, if◌then◌else◌, length, take, drop, replicate, store, load,
}
use rw_mem.Server.Handle.{RegionInfo, ModuleListEntry, ProcessInfo, Server}
use rw_mem.Server.Process.{open_process_handle, close_handle}
use rw_mem.Server.Snapshot.{create_toolhelp32_snapshot}
use rw_mem.Server.Toolhelp.{process32_first, process32_next, module32_first, module32_next}
use rw_mem.Server.Query.{virtual_query_ex_full, virtual_query_ex, Answer, Reply, refused, replied}
use rw_mem.Server.Driver.Memory.{read_process_memory, write_process_memory}
use rw_mem.Server.Dispatch.{
  Connection, Machine, Dispatched, returned, exited, blocked, faulted, send, close, receive, called,
  field,
}

abbrev pub version_string : List ℕ
version_string =
    b'C' ∷ b'H' ∷ b'E' ∷ b'A' ∷ b'T' ∷ b'E' ∷ b'N' ∷ b'G' ∷ b'I' ∷ b'N' ∷ b'E' ∷ b' ' ∷ b'N' ∷ b'e'
    ∷ b't' ∷ b'w' ∷ b'o' ∷ b'r' ∷ b'k' ∷ b' ' ∷ b'2' ∷ b'.' ∷ b'3' ∷ []

-- CMD_GETVERSION
unfoldable pub get_version : Server → Connection → Dispatched
get_version s c =
    returned s (send (store 4 6 ++ store 1 (length version_string) ++ version_string) c)

-- CMD_GETARCHITECTURE, on the 64-bit ARM that the program is built for. Whether the handle arrived
-- makes no difference.
unfoldable pub get_architecture : Server → Connection → Dispatched
get_architecture s c =
    let answer = λ (c' : Connection). returned s (send (3 ∷ []) c') in
    receive c 4 (λ h c'. answer c') answer

-- CMD_CLOSEHANDLE
unfoldable pub close_handle_command : Server → Connection → Dispatched
close_handle_command s c =
    receive c 4 (λ h c'. called (close_handle s (load h)) (λ s'. returned s' (send (store 4 1) c')))
      (λ c'. returned s (close c'))

-- CMD_CREATETOOLHELP32SNAPSHOT
unfoldable pub snapshot_command : Machine → Server → Connection → Dispatched
snapshot_command m s c =
    receive c 8
      (λ params c'.
        called (create_toolhelp32_snapshot m.env s m.rands (field 0 4 params) (field 4 4 params))
          (λ (result, s'). returned s' (send (store 4 result) c')))
      (λ c'. returned s (close c'))

-- A CeProcessEntry, with the name behind it where there is one.
unfoldable pub process_entry : Option ProcessInfo → List ℕ
process_entry none = store 4 0 ++ store 4 0 ++ store 4 0
process_entry (some pe) = store 4 1 ++ store 4 pe.pid ++ store 4 (length pe.cmdline) ++ pe.cmdline

-- CMD_PROCESS32FIRST and CMD_PROCESS32NEXT, by whether it is the first.
unfoldable pub process32_command : Bool → Server → Connection → Dispatched
process32_command first s c =
    receive c 4
      (λ h c'.
        called (if first then process32_first s (load h) else process32_next s (load h))
          (λ (pe, s'). returned s' (send (process_entry pe) c')))
      (λ c'. returned s c')

-- A CeModuleEntry: result, modulebase, modulepart, modulesize, modulefileoffset, modulenamesize,
-- with the name behind it.
unfoldable pub module_entry : Option ModuleListEntry → List ℕ
module_entry none = store 4 0 ++ store 8 0 ++ store 4 0 ++ store 4 0 ++ store 4 0 ++ store 4 0
module_entry (some me) =
    store 4 1
    ++ store 8 me.base_address
    ++ store 4 0
    ++ store 4 me.module_size
    ++ store 4 0
    ++ store 4 (length me.module_name)
    ++ me.module_name

-- CMD_MODULE32FIRST and CMD_MODULE32NEXT, by whether it is the first.
unfoldable pub module32_command : Bool → Server → Connection → Dispatched
module32_command first s c =
    receive c 4
      (λ h c'.
        called (if first then module32_first s (load h) else module32_next s (load h))
          (λ (me, s'). returned s' (send (module_entry me) c')))
      (λ c'. returned s c')

-- CMD_OPENPROCESS
unfoldable pub open_process_command : Machine → Server → Connection → Dispatched
open_process_command m s c =
    receive c 4
      (λ pid c'.
        called (open_process_handle s m.rands (load pid))
          (λ (handle, s'). returned s' (send (store 4 handle) c')))
      (λ c'. returned s (close c'))

-- The compressed data in blocks of 64 KB, the last one what is left; the fuel bounds their number.
unfoldable pub blocks : ℕ → List ℕ → List (List ℕ)
blocks zero bytes = bytes ∷ []
blocks (suc fuel) bytes =
    let rest = blocks fuel (drop 65536 bytes) in
    if leb (length bytes) 65536 then bytes ∷ [] else take 65536 bytes ∷ rest

unfoldable pub send_all : List (List ℕ) → Connection → Connection
send_all [] c = c
send_all (b ∷ bs) c = send_all bs (send b c)

-- What CMD_READPROCESSMEMORY sends: the count and the data, or at a level of compression the two
-- sizes and the compressed data.
unfoldable pub read_reply : Machine → ℕ → ℕ → List ℕ → List (List ℕ)
read_reply m level read bytes =
    let packed = m.compress level (take read bytes) in
    if level == 0
    then (store 4 read ++ take read bytes) ∷ []
    else store 4 read ∷ store 4 (length packed) ∷ blocks (length packed) packed

-- CMD_READPROCESSMEMORY
unfoldable pub read_command : Machine → Server → Connection → Dispatched
read_command m s c =
    receive c 17
      (λ input c'.
        let size = field 12 4 input in
        called
          (read_process_memory m.sys_read s (field 0 4 input) (field 4 8 input) (replicate size 0)
            size)
          (λ (read, bytes). returned s (send_all (read_reply m (field 16 1 input) read bytes) c')))
      (λ c'. returned s c')

-- An `int` as the size of a `recvall`: a negative one makes it return 0 at once, as 0 does.
abbrev pub int_size : ℕ → ℕ
int_size n = if ltb n (2 ^ 31) then n else 0

-- CMD_WRITEPROCESSMEMORY
unfoldable pub write_command : Machine → Server → Connection → Dispatched
write_command m s c =
    receive c 16
      (λ input c'.
        let size = field 12 4 input in
        if size == 0
        then returned s (send (store 4 0) c')
        else receive c' (int_size size)
            (λ bytes c''.
              called
                (write_process_memory m.sys_write s (field 0 4 input) (field 4 8 input) bytes size)
                (λ written. returned s (send (store 4 written) c'')))
            (λ c''. returned s c''))
      (λ c'. returned s c')

-- A RegionInfo as it lies in memory.
unfoldable pub region_info : RegionInfo → List ℕ
region_info r = store 8 r.baseaddress ++ store 8 r.size ++ store 4 r.protection ++ store 4 r.type

unfoldable pub region_infos : List RegionInfo → List (List ℕ)
region_infos [] = []
region_infos (r ∷ rs) = region_info r ∷ region_infos rs

-- What CMD_VIRTUALQUERYEXFULL sends.
unfoldable pub query_full_reply : Option (List RegionInfo) → List (List ℕ)
query_full_reply none = store 4 0 ∷ []
query_full_reply (some rs) = store 4 (length rs) ∷ region_infos rs

-- CMD_VIRTUALQUERYEXFULL
unfoldable pub query_full_command : Machine → Server → Connection → Dispatched
query_full_command m s c =
    receive c 5
      (λ input c'.
        called (virtual_query_ex_full m.physical_maps m.now s (field 0 4 input) (field 4 1 input))
          (λ (found, s'). returned s' (send_all (query_full_reply found) c')))
      (λ c'. returned s c')

abbrev pub or_garbage : ℕ → Option ℕ → ℕ
or_garbage garbage none = garbage
or_garbage garbage (some n) = n

-- A CeVirtualQueryExOutput: result, protection, type, baseaddress, size.
unfoldable pub query_output : ℕ → Reply → List ℕ
query_output garbage refused =
    store 1 0 ++ store 4 garbage ++ store 4 garbage ++ store 8 garbage ++ store 8 garbage
query_output garbage (replied found a) =
    store 1 (if found then 1 else 0)
    ++ store 4 a.protection
    ++ store 4 (or_garbage garbage a.type)
    ++ store 8 a.baseaddress
    ++ store 8 (or_garbage garbage a.size)

abbrev pub maps_line : Reply → List ℕ
maps_line refused = []
maps_line (replied found a) = a.name

-- What CMD_VIRTUALQUERYEX and CMD_GETREGIONINFO send; the second also the area's name, its length
-- in one byte.
unfoldable pub query_reply : Bool → ℕ → Reply → List (List ℕ)
query_reply with_name garbage reply =
    let output = query_output garbage reply in
    let size = length (maps_line reply) % 256 in
    if with_name
    then (if size == 0
        then output ∷ store 1 size ∷ []
        else output ∷ store 1 size ∷ take size (maps_line reply) ∷ [])
    else output ∷ []

-- CMD_VIRTUALQUERYEX and CMD_GETREGIONINFO
unfoldable pub query_command : Bool → Machine → Server → Connection → Dispatched
query_command with_name m s c =
    receive c 12
      (λ input c'.
        called
          (virtual_query_ex m.physical_maps m.now m.later s (field 0 4 input) (field 4 8 input))
          (λ (reply, s'). returned s' (send_all (query_reply with_name m.garbage reply) c')))
      (λ c'. returned s c')

-- CMD_GETSYMBOLLISTFROMFILE: no list is ever made, and eight zero bytes say so. The largest size plus
-- one is no byte, and the path's end is put far outside; a path of less than four bytes is compared
-- with the five of "/dev/" beyond its buffer.
unfoldable pub symbol_list_command : Server → Connection → Dispatched
symbol_list_command s c =
    receive c 4
      (λ size c'.
        if load size == 2 ^ 32 - 1
        then faulted
        else receive c' (int_size (load size))
            (λ path c''. if ltb (load size) 4 then faulted else returned s (send (store 8 0) c''))
            (λ c''. returned s (close c'')))
      (λ c'. returned s c')

-- CMD_AOBSCAN: the scan is not made, and reports no hit. The size is an `int`, and twice the size wraps
-- around; a negative size whose double is positive is a copy of nearly all memory.
unfoldable pub aob_scan_command : Server → Connection → Dispatched
aob_scan_command s c =
    receive c 32
      (λ input c'.
        let n = field 28 4 input in
        receive c' (int_size (n * 2 % 2 ^ 32))
          (λ bytes c''.
            if leb (2 ^ 31) n then faulted else returned s (send [] (send (store 4 0) c'')))
          (λ c''. returned s c''))
      (λ c'. returned s c')
