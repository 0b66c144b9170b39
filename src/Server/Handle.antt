-- ===== src/Server/Handle.antt =====
-- CEServer/porthelp.cpp and porthelp.h: the table of handles, which stand for objects of the
-- server's heap. The objects are those of CEServer/api.h.
--
-- A HANDLE or a DWORD is an `int32_t`, modelled as its 32 bits. The objects live in an explicit
-- heap: `new` and `malloc` take the next address, `delete` and `free` empty the cell. The draws of
-- `std::random_device` are an argument, a list of 32-bit words.
pub mod Laws
use rw_mem.Common.{
  ℕ, suc, ◌+◌, ◌-◌, ◌/◌, ◌%◌, ◌^◌, ◌<◌, ◌≡◌, Bool, true, false, Option, none, some, List, [], ◌∷◌,
  ltb, ◌==◌, if◌then◌else◌, lookup, insert, erase,
}

-- `handleType`
pub data HandleType : Type 0 where
  empty proces_handle thread_handle ths_process ths_module ths_thread : HandleType
  native_thread_handle : HandleType

-- `ModuleListEntry`; a name is its bytes. `moduleSize` is an `int`, kept as its 32 bits.
pub record ModuleListEntry : Type 0 where
  pub base_address : ℕ
  pub module_size : ℕ
  pub module_name : List ℕ

-- `MyProcessInfo`, less `total_rss`, which no caller asks for.
pub record ProcessInfo : Type 0 where
  pub pid : ℕ
  pub cmdline : List ℕ

-- `DRIVER_REGION_INFO`
pub record RegionInfo : Type 0 where
  pub baseaddress : ℕ
  pub size : ℕ
  pub protection : ℕ
  pub type : ℕ
  pub name : List ℕ

-- `CeOpenProcess`
pub record CeOpenProcess : Type 0 where
  pub pid : ℕ
  pub driver_process_handle : ℕ
  pub last_maps : List RegionInfo
  pub last_get_maps_time : ℕ

-- What a handle can stand for: `CeOpenProcess`, `CeProcessList`, `CeModuleList`, `ThreadList`.
-- The read iterator of a list is the number of entries before it.
pub data Object : Type 0 where
  open_process : CeOpenProcess → Object
  process_list : List ProcessInfo → ℕ → Object
  module_list : List ModuleListEntry → ℕ → Object
  thread_list : List ℕ → Object

-- `HANDLE_INFO`
pub record HandleInfo : Type 0 where
  pub p : ℕ
  pub type : HandleType

-- `m_HandlePointList`, and the heap.
pub record Server : Type 0 where
  pub handles : List (ℕ × HandleInfo)
  pub heap : ℕ → Option Object
  pub next : ℕ

abbrev pub update : (ℕ → Option Object) → ℕ → Option Object → ℕ → Option Object
update h a o b = if a == b then o else h b

-- `10000 + rd() / 1000` in unsigned arithmetic, as an `int32_t`, and its absolute value.
unfoldable pub draw_handle : ℕ → ℕ
draw_handle rd =
    let handle = (10000 + rd / 1000) % 2 ^ 32 in
    if ltb handle (2 ^ 31) then handle else 2 ^ 32 - handle

-- The `while` loop that draws again as long as the handle is taken; `none` if the draws run out.
unfoldable pub fresh_handle : List (ℕ × HandleInfo) → List ℕ → Option ℕ
fresh_handle m [] = none
fresh_handle m (rd ∷ rds) = elim (lookup (draw_handle rd) m) [
  | none ↦ some (draw_handle rd)
  | some _ ↦ fresh_handle m rds
]

-- `CPortHelper::CreateHandleFromPointer`
unfoldable pub create_handle_from_pointer : Server → List ℕ → ℕ → HandleType → Option (ℕ × Server)
create_handle_from_pointer s rds p type = elim (fresh_handle s.handles rds) [
  | none ↦ none
  | some handle ↦
      some (handle, record s { handles = insert handle (record { p = p; type = type }) s.handles })
]

-- `CPortHelper::GetHandleType`
unfoldable pub get_handle_type : Server → ℕ → HandleType
get_handle_type s handle = elim (lookup handle s.handles) [
  | none ↦ HandleType.empty
  | some info ↦ info.type
]

-- `CPortHelper::GetPointerFromHandle`
unfoldable pub get_pointer_from_handle : Server → ℕ → ℕ
get_pointer_from_handle s handle = elim (lookup handle s.handles) [ none ↦ 0 | some info ↦ info.p ]

-- `CPortHelper::RemoveHandle`
unfoldable pub remove_handle : Server → ℕ → Server
remove_handle s handle = record s { handles = erase handle s.handles }

-- Whether the table's entry is the opened process: its type, then the `pid` behind its pointer.
-- A pointer to another object would be read as garbage; it has no pid here.
abbrev pub object_pid : Option Object → Option ℕ
object_pid (some (open_process o)) = some o.pid
object_pid (some (process_list _ _)) = none
object_pid (some (module_list _ _)) = none
object_pid (some (thread_list _)) = none
object_pid none = none

abbrev pub is_process : HandleType → Bool
is_process HandleType.proces_handle = true
is_process HandleType.empty = false
is_process HandleType.thread_handle = false
is_process HandleType.ths_process = false
is_process HandleType.ths_module = false
is_process HandleType.ths_thread = false
is_process HandleType.native_thread_handle = false

abbrev pub has_pid : Option ℕ → ℕ → Bool
has_pid none pid = false
has_pid (some q) pid = q == pid

unfoldable pub find_in : (ℕ → Option Object) → ℕ → List (ℕ × HandleInfo) → ℕ
find_in heap pid [] = 0
find_in heap pid ((handle, info) ∷ m) =
    if is_process info.type
    then (if has_pid (object_pid (heap info.p)) pid then handle else find_in heap pid m)
    else find_in heap pid m

-- `CPortHelper::FindHandleByPID`: a walk over the map, in the order of the handles.
unfoldable pub find_handle_by_pid : Server → ℕ → ℕ
unfolding find_in
find_handle_by_pid s pid = find_in s.heap pid s.handles
