-- ===== src/Server/Process/Invariant.antt =====
-- What holds of the handle table and the heap between two calls of CEServer/api.cpp.
use rw_mem.Common.{List, ℕ, ◌≤◌, ◌≡◌, Option, none, some, if◌then◌else◌, lookup, Above}
use rw_mem.Server.Handle.{
  HandleType, HandleInfo, Object, open_process, process_list, module_list, thread_list, Server,
  object_pid, is_process,
}

-- The type under which an object is put into the table.
abbrev pub kind : Object → HandleType
kind (open_process o) = HandleType.proces_handle
kind (process_list l i) = HandleType.ths_process
kind (module_list l i) = HandleType.ths_module
kind (thread_list l) = HandleType.ths_thread

-- Handles are the table's keys from 10000 on, each stands for a live object of its type and no
-- other handle does; every live object has a handle, and none lies past the next free address.
pub record IsWellFormed (s : Server) : Type 0 where
  pub sorted : Above 9999 s.handles
  pub live :
      (h : ℕ) (i : HandleInfo)
      → lookup h s.handles ≡ some i
      → (o : Object) × (s.heap i.p ≡ some o) × (kind o ≡ i.type)
  pub apart :
      (h k : ℕ) (i j : HandleInfo)
      → lookup h s.handles ≡ some i
      → lookup k s.handles ≡ some j
      → i.p ≡ j.p
      → h ≡ k
  pub owned :
      (a : ℕ) (o : Object)
      → s.heap a ≡ some o
      → (h : ℕ) × (i : HandleInfo) × (lookup h s.handles ≡ some i) × (i.p ≡ a)
  pub fresh : (a : ℕ) → s.next ≤ a → s.heap a ≡ none

-- The pid of the process that a table entry stands for, and the one that a handle stands for.
abbrev pub entry_pid : (ℕ → Option Object) → HandleInfo → Option ℕ
entry_pid heap i = if is_process i.type then object_pid (heap i.p) else none

abbrev pub pid_in : (ℕ → Option Object) → List (ℕ × HandleInfo) → ℕ → Option ℕ
pid_in heap m h = elim (lookup h m) [ none ↦ none | some i ↦ entry_pid heap i ]

abbrev pub handle_pid : Server → ℕ → Option ℕ
handle_pid s h = pid_in s.heap s.handles h
