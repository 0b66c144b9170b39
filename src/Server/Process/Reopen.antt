-- ===== src/Server/Process/Reopen.antt =====
-- Which handle CEServer/porthelp.cpp finds for a pid, and why OpenProcess in CEServer/api.cpp
-- never makes a second one.
use rw_mem.Common.{
  ℕ, ◌≤◌, ◌<◌, ◌≡◌, refl, ◌≢◌, ◌⊎◌, inl, inr, Option, none, some, List, [], ◌∷◌, leb, ◌==◌, ==_self,
  if◌then◌else◌, lookup, Above, arith, Option-cases, Bool-cases, lookup_below,
}
use rw_mem.Server.Handle.{
  HandleType, HandleInfo, Server, Object, open_process, fresh_handle, find_handle_by_pid, find_in,
}
use rw_mem.Server.Process.{new_handle, open_process_handle, opened}
use rw_mem.Server.Process.Invariant.{IsWellFormed, handle_pid, entry_pid, pid_in}
use rw_mem.Server.Process.Preserve.{
  AreWords, added, added-lookup, unused, added-IsWellFormed, new_handle-added,
}

-- 0, and no handle stands for the pid; or the least handle that does.
abbrev pub Finds : (ℕ → Option Object) → List (ℕ × HandleInfo) → ℕ → ℕ → Type 0
Finds heap m pid r =
    ((r ≡ 0) × ((h : ℕ) → pid_in heap m h ≢ some pid))
    ⊎ ((pid_in heap m r ≡ some pid) × ((h : ℕ) → pid_in heap m h ≡ some pid → r ≤ h))

find_in_hit :
    (heap : ℕ → Option Object) (pid j : ℕ) (i : HandleInfo) (m : List (ℕ × HandleInfo))
    → entry_pid heap i ≡ some pid
    → find_in heap pid ((j, i) ∷ m) ≡ j
unfolding find_in
find_in_hit heap pid j i m e = ground arith

find_in_miss :
    (heap : ℕ → Option Object) (pid j : ℕ) (i : HandleInfo) (m : List (ℕ × HandleInfo))
    → entry_pid heap i ≢ some pid
    → find_in heap pid ((j, i) ∷ m) ≡ find_in heap pid m
unfolding find_in
find_in_miss heap pid j i m n = ground arith

Option-eq_cases : (o : Option ℕ) (p : ℕ) → (o ≡ some p) ⊎ (o ≢ some p)
Option-eq_cases none p = inr (λ e. cc)
Option-eq_cases (some q) p = elim (Bool-cases (q == p)) [
  | inl y ↦ inl (ground arith)
  | inr n ↦ inr (λ e. ground arith)
]

pid_in-cons :
    (heap : ℕ → Option Object) (j h : ℕ) (i : HandleInfo) (m : List (ℕ × HandleInfo))
    → pid_in heap ((j, i) ∷ m) h ≡ (if j == h then entry_pid heap i else pid_in heap m h)
pid_in-cons heap j h i m = ground arith

-- the keys of the tail are past its bound
pid_in-Above :
    (heap : ℕ → Option Object) (pid b h : ℕ) (m : List (ℕ × HandleInfo))
    → Above b m
    → pid_in heap m h ≡ some pid
    → b < h
pid_in-Above heap pid b h m a e = elim (Bool-cases (leb h b)) [
  | inl y ↦ absurd (ground (arith, lookup_below b h m a))
  | inr n ↦ ground arith
]

find_in-Finds :
    (heap : ℕ → Option Object) (pid b : ℕ) (m : List (ℕ × HandleInfo))
    → Above b m
    → Finds heap m pid (find_in heap pid m)
unfolding find_in
find_in-Finds heap pid b [] a = inl (refl, λ h q. cc)
find_in-Finds heap pid b ((j, i) ∷ m) a = elim (Option-eq_cases (entry_pid heap i) pid) [
  | inl hit ↦ inr (
    rw (find_in_hit heap pid j i m hit) (rw (pid_in-cons heap j j i m, ==_self j) hit),
    λ h q. rw (find_in_hit heap pid j i m hit) (elim (Bool-cases (j == h)) [
      | inl y ↦ ground arith
      | inr n ↦
          omega (arith, pid_in-Above heap pid j h m a.1 (ground (arith, pid_in-cons heap j h i m)))
    ]),
  )
  | inr miss ↦ rw (find_in_miss heap pid j i m miss) (elim (find_in-Finds heap pid j m a.1) [
    | inl (z, no_entry) ↦ inl (z, λ h q. ground (arith, pid_in-cons heap j h i m, no_entry h))
    | inr (found, least) ↦ inr (
      ground (
        arith,
        pid_in-cons heap j (find_in heap pid m) i m,
        pid_in-Above heap pid j (find_in heap pid m) m a.1,
      ),
      λ h q. ground (arith, pid_in-cons heap j h i m, least h),
    )
  ])
]

-- `FindHandleByPID` returns 0 exactly when no handle of the table stands for a process of that pid,
-- and the least such handle otherwise.
pub find_handle_by_pid-Finds :
    (s : Server) (pid : ℕ) → IsWellFormed s → Finds s.heap s.handles pid (find_handle_by_pid s pid)
unfolding find_handle_by_pid
find_handle_by_pid-Finds s pid w = find_in-Finds s.heap pid 9999 s.handles w.sorted

module _ (s : Server) (rds : List ℕ) (pid : ℕ) (w : IsWellFormed s) (words : AreWords rds) {h : ℕ}
    (q : fresh_handle s.handles rds ≡ some h) where
  made : Server
  made = added s rds (open_process (opened pid)) w words q

  made-pid : (k : ℕ) → handle_pid made k ≡ (if h == k then some pid else handle_pid s k)
  unfolding made
  made-pid k = elim (Bool-cases (h == k)) [
    | inl y ↦ ground (arith, added-lookup s rds (open_process (opened pid)) w words q k)
    | inr n ↦ elim (Option-cases (lookup k s.handles)) [
      | inl z ↦ ground (arith, added-lookup s rds (open_process (opened pid)) w words q k)
      | inr (i, z) ↦ ground (
        arith,
        added-lookup s rds (open_process (opened pid)) w words q k,
        unused s rds (open_process (opened pid)) w words q k i z,
      )
    ]
  ]

  find-made : ((k : ℕ) → handle_pid s k ≢ some pid) → find_handle_by_pid made pid ≡ h
  unfolding made
  find-made no_handle =
      elim (find_handle_by_pid-Finds made pid
        (added-IsWellFormed s rds (open_process (opened pid)) w words q)) [
          | inl (z, none_made) ↦ absurd (ground (arith, none_made h, made-pid h))
          | inr (found, least) ↦ ground (
            arith,
            made-pid (find_handle_by_pid made pid),
            no_handle (find_handle_by_pid made pid),
          )
        ]

open_known :
    (s : Server) (rds : List ℕ) (pid r : ℕ)
    → find_handle_by_pid s pid ≡ r
    → r ≢ 0
    → open_process_handle s rds pid ≡ some (r, s)
unfolding open_process_handle
open_known s rds pid r e n = ground arith

open_unknown :
    (s t : Server) (rds : List ℕ) (pid h : ℕ)
    → find_handle_by_pid s pid ≡ 0
    → open_process_handle s rds pid ≡ some (h, t)
    → h ≢ 0
    → new_handle s rds (open_process (opened pid)) HandleType.proces_handle ≡ some (h, t)
unfolding open_process_handle
open_unknown s t rds pid h z e n = ground arith

-- Once `OpenProcess` has given out a handle for a pid, the handle stands for that pid, and until
-- it is closed another `OpenProcess` gives the same handle and changes nothing.
pub open_process_handle_again :
    (s t : Server) (rds more : List ℕ) (pid h : ℕ)
    → IsWellFormed s
    → AreWords rds
    → open_process_handle s rds pid ≡ some (h, t)
    → h ≢ 0
    → (handle_pid t h ≡ some pid) × (open_process_handle t more pid ≡ some (h, t))
unfolding made
open_process_handle_again s t rds more pid h w words e n = elim (find_handle_by_pid-Finds s pid w) [
  | inl (z, no_handle) ↦
      let (q, same) =
        new_handle-added s rds (open_process (opened pid)) w words
          (open_unknown s t rds pid h z e n) in
      rw same (
        ground (arith, made-pid s rds pid w words q h),
        open_known _ more pid h (find-made s rds pid w words q no_handle) n,
      )
  | inr (found, least) ↦
      let r : ℕ = find_handle_by_pid s pid in
      let pos : 9999 < r = pid_in-Above s.heap pid 9999 r s.handles w.sorted found in
      let known : open_process_handle s rds pid ≡ some (r, s) =
        open_known s rds pid r refl (omega arith) in
      let same_handle : r ≡ h = ground arith in
      let same_state : s ≡ t = ground arith in
      rw (← same_state, ← same_handle) (found, open_known s more pid r refl (omega arith))
]
