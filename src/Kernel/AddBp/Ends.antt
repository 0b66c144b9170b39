-- ===== src/Kernel/AddBp/Ends.antt =====
-- A breakpoint that IOCTL_ADD_BP of rwMem/sys.c has made, in the protocol of rwMem/bp.c, and its end.
use rw_mem.Common.{
  ℕ, ◌+◌, ◌-◌, ◌≡◌, ◌≢◌, sym, ap, ap₂, subst, ◌∙◌, fun_ext, inl, inr, ==_false, Bool, Option, none,
  some, List, if◌then◌else◌, load, take, drop, get_or, arith,
}
use rw_mem.Common.Result.{Errno, Result, ok, err}
use rw_mem.Kernel.Breakpoint.{assign, release}
use rw_mem.Kernel.Breakpoint.Begins.{IsUnused, new_file, Step}
use rw_mem.Kernel.Breakpoint.Begins
use rw_mem.Kernel.Breakpoint.Protocol.{Reachable, next}
use rw_mem.Kernel.AddBp.{
  Attr, Asked, Holdings, unregister, put_task_struct, set_fd, release_data, rwmem_bp_release,
  close_fd, attr_of, add_bp,
}
use rw_mem.Kernel.AddBp.Laws.{
  IsFresh, made, leaked, assign_same, assign_back, assign-assign, here, release_new,
}
use rw_mem.Kernel.AddBp.Branches.{add_bp_lem}

module _ (a b : Result ℕ) (x y : Holdings)
    (e : Path (Option (Result ℕ × Holdings)) (some (a, x)) (some (b, y))) where
  same_result : a ≡ b
  same_result = ap (λ (o : Option (Result ℕ × Holdings)). elim o [ none ↦ a | some p ↦ p.0 ]) e

  same_holdings : x ≡ y
  same_holdings = ap (λ (o : Option (Result ℕ × Holdings)). elim o [ none ↦ x | some p ↦ p.1 ]) e

same_fd : (n fd : ℕ) → Path (Result ℕ) (ok n) (ok fd) → n ≡ fd
same_fd n fd e = ground arith

not_ok :
    (e : Errno) (fd : ℕ) (x y : Holdings)
    → Path (Option (Result ℕ × Holdings)) (some (err e, x)) (some (ok fd, y))
    → ⊥
not_ok e fd x y same = ground (arith, same_result (err e) (ok fd) x y same)

module _ (asked : Asked) (h : Holdings) (fresh : IsFresh asked h) where
  close_made :
      (fd file event task : ℕ) (attr : Attr)
      → h.fds fd ≡ none
      → IsUnused h.debugger file × (h.event file ≡ none)
      → h.breakpoints event ≡ none
      → task ≢ 0
      → close_fd (made h fd file event task attr) fd file ≡ some h
  unfolding close_fd rwmem_bp_release
  close_made fd file event task attr free (unused, no_event) new some_task =
      let m = set_fd (made h fd file event task attr) fd none in
      let files = release_new h.debugger file (new_file task) unused in
      let events =
        assign-assign h.event file none (some event) ∙ assign_same h.event file none no_event in
      let fds = assign_back h.fds fd none (some (some file)) free in
      let held : (put_task_struct m task).references ≡ h.references = fun_ext (λ j. ground arith) in
      let breakpoints = assign_back h.breakpoints event none (some attr) new in
      let count : h.allocated + 1 - 1 ≡ h.allocated = omega arith in
      ap (release_data m file) (here h.debugger.files file (some (new_file task)))
      ∙ ap₂
          (λ (o : Option ℕ) (b : Bool). some (record (if b then m else put_task_struct m task) {
            debugger = release m.debugger file;
            event = assign m.event file none;
            breakpoints = unregister m.breakpoints o;
            allocated = m.allocated - 1;
          }))
          (here h.event file (some event)) (==_false task 0 some_task)
      ∙ λ i. some (record {
        debugger = files i;
        event = events i;
        fds = fds i;
        references = held i;
        breakpoints = breakpoints i;
        allocated = count i;
      })

  -- Where what the kernel gives is not in use, the descriptor that IOCTL_ADD_BP returned has a file, and
  -- closing it gives back all that the call took: what is held is what was held before.
  pub close_fd-add_bp :
      (mem : List ℕ) (fd : ℕ) (h' : Holdings)
      → add_bp asked h mem ≡ some (ok fd, h')
      → (file : ℕ) × (h'.fds fd ≡ some (some file)) × (close_fd h' fd file ≡ some h)
  close_fd-add_bp mem fd h' same = elim (add_bp_lem asked h fresh mem) [
    | inl (e, r) ↦ absurd (not_ok e fd h h' (sym r ∙ same))
    | inr (inl (e, n, r)) ↦ absurd (not_ok e fd (leaked h) h' (sym r ∙ same))
    | inr (inr (task, n, file, type, len, alive, (event, r, a, b, c))) ↦
        let attr =
          attr_of task (load (take 8 (drop 8 mem))) (get_or mem 5 0) (get_or mem 4 0) file in
        let m = made h n file event task attr in
        let fd_same : n ≡ fd = same_fd n fd (same_result (ok n) (ok fd) m h' (sym r ∙ same)) in
        let h_same : m ≡ h' = same_holdings (ok n) (ok fd) m h' (sym r ∙ same) in
        let closed =
          close_made n file event task attr (fresh.fd n a) (fresh.file file b)
            (fresh.event attr event c) (fresh.task (load (take 4 mem)) task alive) in
        (
          file,
          ap₂ (λ (x : Holdings) (k : ℕ). x.fds k) (sym h_same) (sym fd_same)
              ∙ here h.fds n (some (some file)),
          ap₂ (λ (x : Holdings) (k : ℕ). close_fd x k file) (sym h_same) (sym fd_same) ∙ closed,
        )
  ]

  -- Whatever IOCTL_ADD_BP returns, the breakpoints' files, steps and tasks are in a state that the
  -- protocol of bp.c can reach, if they were before and what the kernel gives is not in use.
  pub add_bp-Reachable :
      (mem : List ℕ) (r : Result ℕ) (h' : Holdings)
      → add_bp asked h mem ≡ some (r, h')
      → Reachable h.debugger
      → Reachable h'.debugger
  add_bp-Reachable mem r h' same reach = elim (add_bp_lem asked h fresh mem) [
    | inl (e, q) ↦
        subst (λ (x : Holdings). Reachable x.debugger) (same_holdings (err e) r h h' (sym q ∙ same))
          reach
    | inr (inl (e, n, q)) ↦
        subst (λ (x : Holdings). Reachable x.debugger)
          (same_holdings (err e) r (leaked h) h' (sym q ∙ same)) reach
    | inr (inr (task, fd, file, type, len, alive, (event, q, a, b, c))) ↦
        let m =
          made h fd file event task
            (attr_of task (load (take 8 (drop 8 mem))) (get_or mem 5 0) (get_or mem 4 0) file) in
        subst (λ (x : Holdings). Reachable x.debugger) (same_holdings (ok fd) r m h' (sym q ∙ same))
          (next reach (Begins.add_bp file task (fresh.file file b).0))
  ]
