-- ===== src/Server/Dispatch/Walks.antt =====
-- The calls of CEServer/api.cpp that walk a snapshot keep the handle table and the heap in step.
use rw_mem.Common.{
  ℕ, ◌+◌, ◌≡◌, refl, subst, ◌⊎◌, inl, inr, Option, none, some, List, arith, Option-cases,
  Bool-cases, length, ltb,
}
use rw_mem.Server.Handle.{
  Server, Object, open_process, process_list, module_list, thread_list, ModuleListEntry,
  ProcessInfo, get_handle_type, get_pointer_from_handle, CeOpenProcess,
}
use rw_mem.Server.Process.Invariant.{IsWellFormed, kind}
use rw_mem.Server.Process.Replace.{replaced-IsWellFormed}
use rw_mem.Server.Toolhelp.{
  module32_first, module32_next, process32_first, process32_next, modules_at, processes_at, put,
  is_module_snapshot, is_process_snapshot,
}
use rw_mem.Server.Query.{process_at}

pub modules_at_cases :
    (x : Option Object) {l : List ModuleListEntry} {i : ℕ}
    → modules_at x ≡ some (l, i)
    → x ≡ some (module_list l i)
modules_at_cases (some (module_list l i)) e = ground arith
modules_at_cases (some (process_list l i)) e = absurd (ground arith)
modules_at_cases (some (open_process o)) e = absurd (ground arith)
modules_at_cases (some (thread_list l)) e = absurd (ground arith)
modules_at_cases none e = absurd (ground arith)

pub processes_at_cases :
    (x : Option Object) {l : List ProcessInfo} {i : ℕ}
    → processes_at x ≡ some (l, i)
    → x ≡ some (process_list l i)
processes_at_cases (some (process_list l i)) e = ground arith
processes_at_cases (some (module_list l i)) e = absurd (ground arith)
processes_at_cases (some (open_process o)) e = absurd (ground arith)
processes_at_cases (some (thread_list l)) e = absurd (ground arith)
processes_at_cases none e = absurd (ground arith)

pub process_at_cases :
    (x : Option Object) {o : CeOpenProcess} → process_at x ≡ some o → x ≡ some (open_process o)
process_at_cases (some (open_process o)) e = ground arith
process_at_cases (some (module_list l i)) e = absurd (ground arith)
process_at_cases (some (process_list l i)) e = absurd (ground arith)
process_at_cases (some (thread_list l)) e = absurd (ground arith)
process_at_cases none e = absurd (ground arith)

-- How a call changes the state: not at all, or an object is replaced by one of its kind.
abbrev pub Replaces : Server → Server → Type 0
Replaces s t =
    (s ≡ t)
    ⊎ ((p : ℕ) × (o : Object) × (x : Object) × (s.heap p ≡ some o)
        × (kind x ≡ kind o)
        × (put s p x ≡ t))

pub Replaces-IsWellFormed : (s t : Server) → Replaces s t → IsWellFormed s → IsWellFormed t
Replaces-IsWellFormed s t (inl same) w = subst IsWellFormed same w
Replaces-IsWellFormed s t (inr (p, o, x, here, alike, same)) w =
    subst IsWellFormed same (replaced-IsWellFormed s w p o x here alike)

pub module32_first-Replaces :
    (s t : Server) (h : ℕ) {r : Option ModuleListEntry}
    → module32_first s h ≡ some (r, t)
    → Replaces s t
unfolding module32_first
module32_first-Replaces s t h e =
    let p = get_pointer_from_handle s h in
    elim (Bool-cases (is_module_snapshot (get_handle_type s h))) [
      | inr z ↦ inl (ground arith)
      | inl y ↦ elim (Option-cases (modules_at (s.heap p))) [
        | inl z ↦ absurd (ground arith)
        | inr ((l, i), q) ↦
            inr (
              p,
              module_list l i,
              module_list l 0,
              modules_at_cases (s.heap p) q,
              refl,
              ground arith,
            )
      ]
    ]

pub module32_first-IsWellFormed :
    (s t : Server) (h : ℕ) {r : Option ModuleListEntry}
    → module32_first s h ≡ some (r, t)
    → IsWellFormed s
    → IsWellFormed t
module32_first-IsWellFormed s t h e = Replaces-IsWellFormed s t (module32_first-Replaces s t h e)

pub module32_next-Replaces :
    (s t : Server) (h : ℕ) {r : Option ModuleListEntry}
    → module32_next s h ≡ some (r, t)
    → Replaces s t
unfolding module32_next
module32_next-Replaces s t h e =
    let p = get_pointer_from_handle s h in
    elim (Bool-cases (is_module_snapshot (get_handle_type s h))) [
      | inr z ↦ inl (ground arith)
      | inl y ↦ elim (Option-cases (modules_at (s.heap p))) [
        | inl z ↦ absurd (ground arith)
        | inr ((l, i), q) ↦ elim (Bool-cases (ltb i (length l))) [
          | inr z ↦ absurd (ground arith)
          | inl more ↦ inr (
            p,
            module_list l i,
            module_list l (i + 1),
            modules_at_cases (s.heap p) q,
            refl,
            ground arith,
          )
        ]
      ]
    ]

pub module32_next-IsWellFormed :
    (s t : Server) (h : ℕ) {r : Option ModuleListEntry}
    → module32_next s h ≡ some (r, t)
    → IsWellFormed s
    → IsWellFormed t
module32_next-IsWellFormed s t h e = Replaces-IsWellFormed s t (module32_next-Replaces s t h e)

pub process32_first-Replaces :
    (s t : Server) (h : ℕ) {r : Option ProcessInfo}
    → process32_first s h ≡ some (r, t)
    → Replaces s t
unfolding process32_first
process32_first-Replaces s t h e =
    let p = get_pointer_from_handle s h in
    elim (Bool-cases (is_process_snapshot (get_handle_type s h))) [
      | inr z ↦ inl (ground arith)
      | inl y ↦ elim (Option-cases (processes_at (s.heap p))) [
        | inl z ↦ absurd (ground arith)
        | inr ((l, i), q) ↦ inr (
          p,
          process_list l i,
          process_list l 0,
          processes_at_cases (s.heap p) q,
          refl,
          ground arith,
        )
      ]
    ]

pub process32_first-IsWellFormed :
    (s t : Server) (h : ℕ) {r : Option ProcessInfo}
    → process32_first s h ≡ some (r, t)
    → IsWellFormed s
    → IsWellFormed t
process32_first-IsWellFormed s t h e = Replaces-IsWellFormed s t (process32_first-Replaces s t h e)

pub process32_next-Replaces :
    (s t : Server) (h : ℕ) {r : Option ProcessInfo}
    → process32_next s h ≡ some (r, t)
    → Replaces s t
unfolding process32_next
process32_next-Replaces s t h e =
    let p = get_pointer_from_handle s h in
    elim (Bool-cases (is_process_snapshot (get_handle_type s h))) [
      | inr z ↦ inl (ground arith)
      | inl y ↦ elim (Option-cases (processes_at (s.heap p))) [
        | inl z ↦ absurd (ground arith)
        | inr ((l, i), q) ↦ elim (Bool-cases (ltb i (length l))) [
          | inr z ↦ absurd (ground arith)
          | inl more ↦ inr (
            p,
            process_list l i,
            process_list l (i + 1),
            processes_at_cases (s.heap p) q,
            refl,
            ground arith,
          )
        ]
      ]
    ]

pub process32_next-IsWellFormed :
    (s t : Server) (h : ℕ) {r : Option ProcessInfo}
    → process32_next s h ≡ some (r, t)
    → IsWellFormed s
    → IsWellFormed t
process32_next-IsWellFormed s t h e = Replaces-IsWellFormed s t (process32_next-Replaces s t h e)
