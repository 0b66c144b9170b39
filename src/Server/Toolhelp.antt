-- ===== src/Server/Toolhelp.antt =====
-- CEServer/api.cpp: Process32First, Process32Next, Module32First and Module32Next.
--
-- A read iterator is the number of entries before it. To step an iterator that stands at the end
-- is undefined: there the result is `none`, as it is where the handle's pointer is not to a list of
-- its type.
pub mod Walk
use rw_mem.Common.{
  ℕ, zero, suc, ◌+◌, ◌==◌, [], ◌∷◌, Bool, true, false, Option, none, some, List, ltb, if◌then◌else◌,
  length, get_elem?,
}
use rw_mem.Server.Handle.{
  HandleType, Object, open_process, process_list, module_list, thread_list, Server, ModuleListEntry,
  ProcessInfo, update, get_handle_type, get_pointer_from_handle,
}

abbrev pub is_module_snapshot : HandleType → Bool
is_module_snapshot HandleType.ths_module = true
is_module_snapshot HandleType.empty = false
is_module_snapshot HandleType.proces_handle = false
is_module_snapshot HandleType.thread_handle = false
is_module_snapshot HandleType.ths_process = false
is_module_snapshot HandleType.ths_thread = false
is_module_snapshot HandleType.native_thread_handle = false

abbrev pub is_process_snapshot : HandleType → Bool
is_process_snapshot HandleType.ths_process = true
is_process_snapshot HandleType.empty = false
is_process_snapshot HandleType.proces_handle = false
is_process_snapshot HandleType.thread_handle = false
is_process_snapshot HandleType.ths_module = false
is_process_snapshot HandleType.ths_thread = false
is_process_snapshot HandleType.native_thread_handle = false

-- the list behind a pointer, with its iterator
abbrev pub modules_at : Option Object → Option (List ModuleListEntry × ℕ)
modules_at (some (module_list l i)) = some (l, i)
modules_at (some (process_list l i)) = none
modules_at (some (open_process o)) = none
modules_at (some (thread_list l)) = none
modules_at none = none

abbrev pub processes_at : Option Object → Option (List ProcessInfo × ℕ)
processes_at (some (process_list l i)) = some (l, i)
processes_at (some (module_list l i)) = none
processes_at (some (open_process o)) = none
processes_at (some (thread_list l)) = none
processes_at none = none

abbrev pub put : Server → ℕ → Object → Server
put s p o = record s { heap = update s.heap p (some o) }

-- `CApi::Module32First`: the entry, if the call returns TRUE, and the state.
unfoldable pub module32_first : Server → ℕ → Option (Option ModuleListEntry × Server)
module32_first s h =
    let p = get_pointer_from_handle s h in
    if is_module_snapshot (get_handle_type s h)
    then elim (modules_at (s.heap p)) [
      | none ↦ none
      | some (l, i) ↦ some (get_elem? l 0, put s p (module_list l 0))
    ]
    else some (none, s)

-- `CApi::Module32Next`
unfoldable pub module32_next : Server → ℕ → Option (Option ModuleListEntry × Server)
module32_next s h =
    let p = get_pointer_from_handle s h in
    if is_module_snapshot (get_handle_type s h)
    then elim (modules_at (s.heap p)) [
      | none ↦ none
      | some (l, i) ↦
          if ltb i (length l)
          then some (get_elem? l (i + 1), put s p (module_list l (i + 1)))
          else none
    ]
    else some (none, s)

-- `CApi::Process32First`
unfoldable pub process32_first : Server → ℕ → Option (Option ProcessInfo × Server)
process32_first s h =
    let p = get_pointer_from_handle s h in
    if is_process_snapshot (get_handle_type s h)
    then elim (processes_at (s.heap p)) [
      | none ↦ none
      | some (l, i) ↦ some (get_elem? l 0, put s p (process_list l 0))
    ]
    else some (none, s)

-- `CApi::Process32Next`
unfoldable pub process32_next : Server → ℕ → Option (Option ProcessInfo × Server)
process32_next s h =
    let p = get_pointer_from_handle s h in
    if is_process_snapshot (get_handle_type s h)
    then elim (processes_at (s.heap p)) [
      | none ↦ none
      | some (l, i) ↦
          if ltb i (length l)
          then some (get_elem? l (i + 1), put s p (process_list l (i + 1)))
          else none
    ]
    else some (none, s)

-- `do { … } while (Module32Next(r, me))` from the entry that Module32First gave: the entries in the
-- order of the rounds; `none` where a call faults or the fuel runs out.
unfoldable pub walk_from : ℕ → Server → ℕ → ModuleListEntry → Option (List ModuleListEntry × Server)
walk_from zero s h me = none
walk_from (suc fuel) s h me = elim (module32_next s h) [
  | none ↦ none
  | some (r, s') ↦ elim r [
    | none ↦ some (me ∷ [], s')
    | some me' ↦ elim (walk_from fuel s' h me') [
      | none ↦ none
      | some (mes, s'') ↦ some (me ∷ mes, s'')
    ]
  ]
]

-- `if (r && Module32First(r, me)) do … while (…)`
unfoldable pub walk : ℕ → Server → ℕ → Option (List ModuleListEntry × Server)
unfolding walk_from
walk fuel s h = if h == 0 then some ([], s) else elim (module32_first s h) [
  | none ↦ none
  | some (r, s') ↦ elim r [ none ↦ some ([], s') | some me ↦ walk_from fuel s' h me ]
]
