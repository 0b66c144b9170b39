-- ===== src/Server/Dispatch/Calls.antt =====
-- The calls of CEServer/api.cpp that query areas and make snapshots keep the handle table and
-- the heap in step.
use rw_mem.Common.{
  ℕ, ◌≡◌, refl, subst, ◌⊎◌, inl, inr, Option, some, List, [], ◌∷◌, ◌==◌, arith, Option-cases,
  Bool-cases,
}
use rw_mem.Server.Handle.{
  Server, Object, open_process, process_list, module_list, thread_list, RegionInfo, get_handle_type,
  get_pointer_from_handle, is_process, find_handle_by_pid,
}
use rw_mem.Server.Process.Invariant.{IsWellFormed, kind}
use rw_mem.Server.Process.Preserve.{AreWords, new_handle-IsWellFormed}
use rw_mem.Server.Process.{new_handle}
use rw_mem.Server.Query.{
  virtual_query_ex_full, virtual_query_ex, Reply, process_at, store_maps, is_stale,
}
use rw_mem.Server.Snapshot.{
  Environment, create_toolhelp32_snapshot, snapshot_modules, snapshot_threads, has_flag,
  collect_tids, process_infos, listed, driver_handle, add_regions,
}
use rw_mem.Server.Dispatch.Walks.{process_at_cases, Replaces, Replaces-IsWellFormed}

virtual_query_ex_full-Replaces :
    (maps : ℕ → List RegionInfo) (now : ℕ) (s t : Server) (h flags : ℕ)
    {r : Option (List RegionInfo)}
    → virtual_query_ex_full maps now s h flags ≡ some (r, t)
    → Replaces s t
unfolding virtual_query_ex_full
virtual_query_ex_full-Replaces maps now s t h flags e =
    let p = get_pointer_from_handle s h in
    elim (Bool-cases (is_process (get_handle_type s h))) [
      | inr z ↦ inl (ground arith)
      | inl y ↦ elim (Option-cases (process_at (s.heap p))) [
        | inl z ↦ absurd (ground arith)
        | inr (o, q) ↦ inr (
          p,
          open_process o,
          open_process (store_maps o (maps o.driver_process_handle) now),
          process_at_cases (s.heap p) q,
          refl,
          ground arith,
        )
      ]
    ]

pub virtual_query_ex_full-IsWellFormed :
    (maps : ℕ → List RegionInfo) (now : ℕ) (s t : Server) (h flags : ℕ)
    {r : Option (List RegionInfo)}
    → virtual_query_ex_full maps now s h flags ≡ some (r, t)
    → IsWellFormed s
    → IsWellFormed t
virtual_query_ex_full-IsWellFormed maps now s t h flags e =
    Replaces-IsWellFormed s t (virtual_query_ex_full-Replaces maps now s t h flags e)

virtual_query_ex-Replaces :
    (maps : ℕ → List RegionInfo) (now later : ℕ) (s t : Server) (h address : ℕ) {r : Reply}
    → virtual_query_ex maps now later s h address ≡ some (r, t)
    → Replaces s t
unfolding virtual_query_ex
virtual_query_ex-Replaces maps now later s t h address e =
    let p = get_pointer_from_handle s h in
    elim (Bool-cases (is_process (get_handle_type s h))) [
      | inr z ↦ inl (ground arith)
      | inl y ↦ elim (Option-cases (process_at (s.heap p))) [
        | inl z ↦ absurd (ground arith)
        | inr (o, q) ↦ elim (Bool-cases (is_stale now o)) [
          | inr kept ↦ inl (ground arith)
          | inl stale ↦ inr (
            p,
            open_process o,
            open_process (store_maps o (maps o.driver_process_handle) later),
            process_at_cases (s.heap p) q,
            refl,
            ground arith,
          )
        ]
      ]
    ]

pub virtual_query_ex-IsWellFormed :
    (maps : ℕ → List RegionInfo) (now later : ℕ) (s t : Server) (h address : ℕ) {r : Reply}
    → virtual_query_ex maps now later s h address ≡ some (r, t)
    → IsWellFormed s
    → IsWellFormed t
virtual_query_ex-IsWellFormed maps now later s t h address e =
    Replaces-IsWellFormed s t (virtual_query_ex-Replaces maps now later s t h address e)

-- How a call that makes a snapshot changes the state.
abbrev Makes : Server → List ℕ → ℕ → Server → Type 0
Makes s rds h t = (s ≡ t) ⊎ ((o : Object) × (new_handle s rds o (kind o) ≡ some (h, t)))

areas_cases :
    (l : List RegionInfo) → (l ≡ []) ⊎ ((r : RegionInfo) × (rs : List RegionInfo) × (l ≡ r ∷ rs))
areas_cases [] = inl refl
areas_cases (r ∷ rs) = inr (r, rs, refl)

snapshot_modules-Makes :
    (env : Environment) (s : Server) (rds : List ℕ) (pid h : ℕ) (t : Server)
    → snapshot_modules env s rds pid ≡ some (h, t)
    → Makes s rds h t
unfolding snapshot_modules
snapshot_modules-Makes env s rds pid h t e =
    let hm = find_handle_by_pid s pid in
    elim (Bool-cases (hm == 0)) [
      | inl z ↦ inl (ground arith)
      | inr nz ↦ elim (Option-cases (driver_handle (s.heap (get_pointer_from_handle s hm)))) [
        | inl z ↦ absurd (ground arith)
        | inr (process, q) ↦ elim (areas_cases (env.maps process)) [
          | inl nil ↦ inl (ground arith)
          | inr (r, rs, more) ↦
              inr (module_list (add_regions (env.read_magic process) (r ∷ rs) []) 0, ground arith)
        ]
      ]
    ]

snapshot_threads-Makes :
    (env : Environment) (s : Server) (rds : List ℕ) (pid h : ℕ) (t : Server)
    → snapshot_threads env s rds pid ≡ some (h, t)
    → Makes s rds h t
unfolding snapshot_threads
snapshot_threads-Makes env s rds pid h t e = elim (Bool-cases (pid == 0)) [
  | inl z ↦ inl (ground arith)
  | inr nz ↦ elim (Option-cases (env.task_dir pid)) [
    | inl z ↦ inl (ground arith)
    | inr (names, q) ↦ elim (Option-cases (collect_tids names 64 [])) [
      | inl z ↦ absurd (ground arith)
      | inr (tids, z) ↦ inr (thread_list tids, ground arith)
    ]
  ]
]

create_toolhelp32_snapshot-Makes :
    (env : Environment) (s : Server) (rds : List ℕ) (flags pid h : ℕ) (t : Server)
    → create_toolhelp32_snapshot env s rds flags pid ≡ some (h, t)
    → Makes s rds h t
unfolding create_toolhelp32_snapshot
create_toolhelp32_snapshot-Makes env s rds flags pid h t e = elim (Bool-cases (has_flag flags 2)) [
  | inl a ↦ elim (Option-cases (process_infos env.cmdline (listed env.proc_dir))) [
    | inl z ↦ absurd (ground arith)
    | inr (infos, z) ↦ inr (process_list infos 0, ground arith)
  ]
  | inr a ↦ elim (Bool-cases (has_flag flags 8)) [
    | inl b ↦ snapshot_modules-Makes env s rds pid h t (ground arith)
    | inr b ↦ elim (Bool-cases (has_flag flags 4)) [
      | inl c ↦ snapshot_threads-Makes env s rds pid h t (ground arith)
      | inr c ↦ inl (ground arith)
    ]
  ]
]

-- `CreateToolhelp32Snapshot` keeps the table and the heap in step, whatever its flags.
pub create_toolhelp32_snapshot-IsWellFormed :
    (env : Environment) (s : Server) (rds : List ℕ) (flags pid : ℕ) {h : ℕ} {t : Server}
    → IsWellFormed s
    → AreWords rds
    → create_toolhelp32_snapshot env s rds flags pid ≡ some (h, t)
    → IsWellFormed t
create_toolhelp32_snapshot-IsWellFormed env s rds flags pid {h} {t} w words e =
    elim (create_toolhelp32_snapshot-Makes env s rds flags pid h t e) [
      | inl same ↦ subst IsWellFormed same w
      | inr (o, made) ↦ new_handle-IsWellFormed s rds o w words made
    ]
