-- ===== src/Server/Snapshot.antt =====
-- CEServer/api.cpp: CreateToolhelp32Snapshot, and the calls that walk a snapshot.
--
-- The file system under /proc and the driver are arguments: the directories' entries, the command
-- lines, the areas that the driver lists, and the first four bytes that it reads of each.
pub mod Modules
pub mod Names
use rw_mem.Common.{
  ℕ, zero, suc, ◌+◌, ◌-◌, ◌*◌, ◌/◌, ◌%◌, ◌^◌, Bool, true, false, ◌&&◌, ◌||◌, Option, none, some,
  List, [], ◌∷◌, ◌++◌, map, ltb, leb, ◌==◌, if◌then◌else◌, length, take, get_elem?, str_eq,
}
use rw_mem.Server.Handle.{
  HandleType, Object, open_process, process_list, module_list, thread_list, Server, ModuleListEntry,
  ProcessInfo, RegionInfo, update, get_handle_type, get_pointer_from_handle, find_handle_by_pid,
}
use rw_mem.Server.Driver.{page_noaccess, mem_mapped}
use rw_mem.Server.Process.{new_handle}

-- the names that are treated apart
abbrev pub vdso_name : List ℕ
vdso_name = b'[' ∷ b'v' ∷ b'd' ∷ b's' ∷ b'o' ∷ b']' ∷ []

abbrev pub heap_name : List ℕ
heap_name = b'[' ∷ b'h' ∷ b'e' ∷ b'a' ∷ b'p' ∷ b']' ∷ []

abbrev pub plain_char : ℕ → ℕ
plain_char c = if (c == b'[') || (c == b']') then b'_' else c

-- The square brackets are taken out of every name but that of the vdso.
unfoldable pub display_name : List ℕ → List ℕ
display_name name = if str_eq name vdso_name then name else map plain_char name

abbrev pub is_empty : List ℕ → Bool
is_empty [] = true
is_empty (c ∷ cs) = false

-- The areas that the loop passes over at once.
unfoldable pub is_skipped : RegionInfo → Bool
is_skipped r =
    (r.protection == page_noaccess)
    || ((r.type == mem_mapped) || (is_empty r.name || str_eq r.name heap_name))

-- The search for a module of the name: the entry is replaced by one with the area's size added (an
-- `int` addition), or there is none.
unfoldable pub extend_module : List ℕ → ℕ → List ModuleListEntry → Option (List ModuleListEntry)
extend_module name size [] = none
extend_module name size (m ∷ ms) =
    if str_eq m.module_name name
    then some (record m { module_size = (m.module_size + size) % 2 ^ 32 } ∷ ms)
    else elim (extend_module name size ms) [ none ↦ none | some rest ↦ some (m ∷ rest) ]

-- `7f 45 4c 46`
abbrev pub elf_magic : ℕ
elf_magic = 0x464c457f

abbrev pub is_elf : Option ℕ → Bool
is_elf none = false
is_elf (some magic) = magic == elf_magic

module _ (read_magic : ℕ → Option ℕ) where
  -- One round of the loop over the areas.
  unfoldable pub add_region : RegionInfo → List ModuleListEntry → List ModuleListEntry
  add_region r ms =
      let name = display_name r.name in
      let entry : ModuleListEntry = record {
        base_address = r.baseaddress;
        module_size = r.size % 2 ^ 32;
        module_name = name;
      } in
      if is_skipped r then ms else elim (extend_module name r.size ms) [
        | some ms' ↦ ms'
        | none ↦ if is_elf (read_magic r.baseaddress) then ms ++ (entry ∷ []) else ms
      ]

  unfoldable pub add_regions : List RegionInfo → List ModuleListEntry → List ModuleListEntry
  add_regions [] ms = ms
  add_regions (r ∷ rs) ms = add_regions rs (add_region r ms)

-- `strspn(name, "1234567890") == strlen(name)`
abbrev pub is_digit : ℕ → Bool
is_digit c = leb b'0' c && leb c b'9'

unfoldable pub is_numeric : List ℕ → Bool
is_numeric [] = true
is_numeric (c ∷ cs) = is_digit c && is_numeric cs

-- `atoi` of a name without sign or blanks, which no entry of /proc begins with: the number that the
-- leading digits spell, 0 if there is none.
unfoldable pub atoi_from : ℕ → List ℕ → ℕ
atoi_from n [] = n
atoi_from n (c ∷ cs) =
    let rest = atoi_from (n * 10 + (c - b'0')) cs in if is_digit c then rest else n

unfoldable pub atoi : List ℕ → ℕ
unfolding atoi_from
atoi name = atoi_from 0 name

-- the zeros between the arguments become blanks, if more than one byte was read
abbrev pub blank : ℕ → ℕ
blank c = if c == 0 then b' ' else c

unfoldable pub command_line : List ℕ → List ℕ
command_line bytes =
    let read = take 500 bytes in if ltb 1 (length read) then map blank read else read

-- A directory entry: its name, and whether it is a directory.
pub record Dirent : Type 0 where
  pub d_name : List ℕ
  pub is_dir : Bool

abbrev pub is_dots : List ℕ → Bool
is_dots name = str_eq name (b'.' ∷ []) || str_eq name (b'.' ∷ b'.' ∷ [])

abbrev pub add_info : ProcessInfo → Option (List ProcessInfo) → Option (List ProcessInfo)
add_info info none = none
add_info info (some infos) = some (info ∷ infos)

-- `GetProcessListInfo` without the memory sizes, which its caller does not ask for. A command line that
-- cannot be opened, which the source reads nevertheless, is the fault `none`.
unfoldable pub process_infos : (ℕ → Option (List ℕ)) → List Dirent → Option (List ProcessInfo)
unfolding is_numeric atoi command_line
process_infos cmdline [] = some []
process_infos cmdline (d ∷ ds) =
    let pid = atoi d.d_name in
    let rest = process_infos cmdline ds in
    if is_dots d.d_name
    then rest
    else if d.is_dir
    then (if is_numeric d.d_name
        then elim (cmdline pid) [
          | none ↦ none
          | some bytes ↦ add_info (record { pid = pid; cmdline = command_line bytes }) rest
        ]
        else rest)
    else rest

-- The array of thread ids: `max` cells are allocated, `tids` are filled. A write to a cell that is
-- not allocated is the fault `none`.
unfoldable pub collect_tids : List (List ℕ) → ℕ → List ℕ → Option (List ℕ)
unfolding atoi
collect_tids [] max tids = some tids
collect_tids (name ∷ names) max tids =
    let tid = atoi name in
    let count = length tids in
    let grown = if leb max (count + 1) then max * 2 else max in
    let skipped = collect_tids names max tids in
    let stored = collect_tids names grown (tids ++ (tid ∷ [])) in
    if tid == 0 then skipped else if ltb count max then stored else none

-- What the function needs of its environment.
pub record Environment : Type 0 where
  pub proc_dir : Option (List Dirent)
  pub cmdline : ℕ → Option (List ℕ)
  pub task_dir : ℕ → Option (List (List ℕ))
  pub maps : ℕ → List RegionInfo
  pub read_magic : ℕ → ℕ → Option ℕ

abbrev pub th32cs_snapprocess : ℕ
th32cs_snapprocess = 2

abbrev pub th32cs_snapthread : ℕ
th32cs_snapthread = 4

abbrev pub th32cs_snapmodule : ℕ
th32cs_snapmodule = 8

-- `flags & bit` for a bit that is a power of two.
abbrev pub has_flag : ℕ → ℕ → Bool
has_flag flags bit = flags / bit % 2 == 1

abbrev pub listed : Option (List Dirent) → List Dirent
listed none = []
listed (some ds) = ds

-- What a call returns: a handle (0 if there is none) and the state, or that it could not go on:
-- the draws ran out, or memory was used that is not there.
abbrev pub Outcome : Type 0
Outcome = Option (ℕ × Server)

abbrev pub driver_handle : Option Object → Option ℕ
driver_handle (some (open_process o)) = some o.driver_process_handle
driver_handle (some (process_list l i)) = none
driver_handle (some (module_list l i)) = none
driver_handle (some (thread_list l)) = none
driver_handle none = none

unfoldable pub snapshot_modules : Environment → Server → List ℕ → ℕ → Outcome
snapshot_modules env s rds pid =
    let hm = find_handle_by_pid s pid in
    if hm == 0 then some (0, s) else elim (driver_handle (s.heap (get_pointer_from_handle s hm))) [
      | none ↦ none
      | some process ↦ elim (env.maps process) [
        | [] ↦ some (0, s)
        | r ∷ rs ↦
            new_handle s rds (module_list (add_regions (env.read_magic process) (r ∷ rs) []) 0)
              HandleType.ths_module
      ]
    ]

unfoldable pub snapshot_threads : Environment → Server → List ℕ → ℕ → Outcome
unfolding collect_tids
snapshot_threads env s rds pid = if pid == 0 then some (0, s) else elim (env.task_dir pid) [
  | none ↦ some (0, s)
  | some names ↦ elim (collect_tids names 64 []) [
    | none ↦ none
    | some tids ↦ new_handle s rds (thread_list tids) HandleType.ths_thread
  ]
]

-- `CApi::CreateToolhelp32Snapshot`
unfoldable pub create_toolhelp32_snapshot : Environment → Server → List ℕ → ℕ → ℕ → Outcome
unfolding process_infos snapshot_modules snapshot_threads
create_toolhelp32_snapshot env s rds flags pid =
    if has_flag flags th32cs_snapprocess
    then elim (process_infos env.cmdline (listed env.proc_dir)) [
      | none ↦ none
      | some infos ↦ new_handle s rds (process_list infos 0) HandleType.ths_process
    ]
    else if has_flag flags th32cs_snapmodule
    then snapshot_modules env s rds pid
    else if has_flag flags th32cs_snapthread
    then snapshot_threads env s rds pid
    else some (0, s)
