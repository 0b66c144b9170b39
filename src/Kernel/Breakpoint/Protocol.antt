-- ===== src/Kernel/Breakpoint/Protocol.antt =====
-- The order in which a reader of a breakpoint's file and the stopped task of rwMem/bp.c go on.
use rw_mem.Common.{
  ℕ, ◌≡◌, refl, ap, subst, ◌∙◌, ◌↔◌, inl, inr, true, false, Option, none, some, List, [], ◌∷◌, ◌++◌,
  ◌==◌, arith, ltb, leb, Option-cases, Bool-cases, ==_self,
}
use rw_mem.Common.Result.{Result, ok, err, einval}
use rw_mem.Kernel.Breakpoint.{
  PrivateData, StepListEntry, Task, Debugger, assign, set_file, hit_end, take_step, handled,
  release_wake, step_handler, IoctlCommand, bp_continue, bp_set_reg, bp_set_simd_reg, bp_step,
  bp_is_stopped, bp_unknown, ioctl, when_stopped, when_running, set_reg, set_simd_reg, step,
  user_enable_single_step,
}
use rw_mem.Kernel.Breakpoint.Begins.{
  IsConsistent, Step, ended, add_bp, meet, begin, end, single, polled, told, releasing, released,
  add_bp-IsConsistent, meet-IsConsistent,
}
use rw_mem.Kernel.Breakpoint.Invariant.{
  stepped, hit_begin-IsConsistent, hit_end-IsConsistent, step_handler-IsConsistent,
  poll_file-IsConsistent, released-IsConsistent, waking-IsConsistent, entry-IsConsistent,
  task-IsConsistent,
}

set_reg-IsConsistent :
    (s : Debugger) (pid : ℕ) (param : Option (ℕ × ℕ))
    → IsConsistent s
    → IsConsistent (set_reg s pid param).1
set_reg-IsConsistent s pid none c = c
set_reg-IsConsistent s pid (some (id, value)) c = elim (Bool-cases (leb 34 id)) [
  | inl y ↦ rw (y) c
  | inr n ↦ rw (n) (task-IsConsistent s pid _ refl refl c)
]

set_simd_reg-IsConsistent :
    (s : Debugger) (pid : ℕ) (param : Option (ℕ × ℕ))
    → IsConsistent s
    → IsConsistent (set_simd_reg s pid param).1
set_simd_reg-IsConsistent s pid none c = c
set_simd_reg-IsConsistent s pid (some (id, value)) c = elim (Bool-cases (ltb id 32)) [
  | inl y ↦ rw (y) (task-IsConsistent s pid _ refl refl c)
  | inr n ↦ elim (Bool-cases (id == 32)) [
    | inl y ↦ rw (n, y) (task-IsConsistent s pid _ refl refl c)
    | inr a ↦ elim (Bool-cases (id == 33)) [
      | inl y ↦ rw (n, a, y) (task-IsConsistent s pid _ refl refl c)
      | inr b ↦ rw (n, a, b) c
    ]
  ]
]

step-IsConsistent :
    (s : Debugger) (file : ℕ) (d : PrivateData)
    → s.files file ≡ some d
    → IsConsistent s
    → IsConsistent (step s file d)
step-IsConsistent s file d here c =
    let entry : StepListEntry = record { pid = d.target_task; file = file; removed = false } in
    let s' : Debugger = record s { step_list = entry ∷ s.step_list } in
    let c' = waking-IsConsistent s' file d here (entry-IsConsistent s file d here c) in
    task-IsConsistent (set_file s' file (record d { continue_flag = true })) d.target_task
      (user_enable_single_step (s.tasks d.target_task)) refl refl c'

when_stopped-IsConsistent :
    (s : Debugger) (file : ℕ) (d : PrivateData) (cmd : IoctlCommand)
    → s.files file ≡ some d
    → IsConsistent s
    → IsConsistent (when_stopped s file d cmd).1
when_stopped-IsConsistent s file d bp_continue here c = waking-IsConsistent s file d here c
when_stopped-IsConsistent s file d (bp_set_reg param) here c =
    set_reg-IsConsistent s d.target_task param c
when_stopped-IsConsistent s file d (bp_set_simd_reg param) here c =
    set_simd_reg-IsConsistent s d.target_task param c
when_stopped-IsConsistent s file d bp_step here c = step-IsConsistent s file d here c
when_stopped-IsConsistent s file d bp_is_stopped here c = c
when_stopped-IsConsistent s file d bp_unknown here c = c

ioctl-IsConsistent :
    (s t : Debugger) (file : ℕ) (cmd : IoctlCommand) (r : Result ℕ)
    → ioctl s file cmd ≡ some (r, t)
    → IsConsistent s
    → IsConsistent t
unfolding ioctl
ioctl-IsConsistent s t file cmd r h c = elim (Option-cases (s.files file)) [
  | inl z ↦ absurd (ground arith)
  | inr (d, here) ↦ elim (Bool-cases d.stopped_flag) [
    | inl y ↦
        let same : (when_stopped s file d cmd).1 ≡ t = ground arith in
        subst IsConsistent same (when_stopped-IsConsistent s file d cmd here c)
    | inr n ↦ let same : s ≡ t = ground arith in subst IsConsistent same c
  ]
]

-- The state before any file is made.
pub record IsIdle (s : Debugger) : Type 0 where
  pub no_files : (file : ℕ) → s.files file ≡ none

pub data Reachable : Debugger → Type 0 where
  start : {s : Debugger} → IsIdle s → Reachable s
  next : {s t : Debugger} → Reachable s → Step s t → Reachable t

release_wake-IsConsistent :
    (s : Debugger) (file : ℕ) → IsConsistent s → IsConsistent (release_wake s file)
unfolding release_wake
release_wake-IsConsistent s file c = elim (Option-cases (s.files file)) [
  | inl z ↦ rw (z, release_wake) c
  | inr (d, here) ↦ rw (here, release_wake) (waking-IsConsistent s file d here c)
]

Step-IsConsistent : (s t : Debugger) → Step s t → IsConsistent s → IsConsistent t
Step-IsConsistent s _ (add_bp file pid unused) c = add_bp-IsConsistent s file pid unused c
Step-IsConsistent s _ (meet file d here) c = meet-IsConsistent s file d here c
Step-IsConsistent s t (begin pid i h) c = hit_begin-IsConsistent s t pid i h c
Step-IsConsistent s t (end pid h) c = hit_end-IsConsistent s t pid h c
Step-IsConsistent s t (single pid {r} h) c = step_handler-IsConsistent s t pid r h c
Step-IsConsistent s t (polled file {r} h) c = poll_file-IsConsistent s t file r h c
Step-IsConsistent s t (told file cmd {r} h) c = ioctl-IsConsistent s t file cmd r h c
Step-IsConsistent s _ (releasing file) c = release_wake-IsConsistent s file c
Step-IsConsistent s _ (released file) c = released-IsConsistent s file c

-- However breakpoints, single steps, the begun and ended works of the tasks, and the calls on the
-- files are ordered: a file is only worked on by its own task, and a file is marked as stopped
-- exactly while its task waits in a work for it.
pub Reachable-IsConsistent : (s : Debugger) → Reachable s → IsConsistent s
Reachable-IsConsistent s (start idle) = record {
  own_works = λ p f d q l. ground (arith, idle.no_files f);
  own_steps = λ p f d q l. ground (arith, idle.no_files f);
  stopped_held = λ f d l q. ground (arith, idle.no_files f);
  held_stopped = λ p f d q l. ground (arith, idle.no_files f);
}
Reachable-IsConsistent s (next {s = before} reach one) =
    Step-IsConsistent before s one (Reachable-IsConsistent before reach)

-- In every state that can be reached, IOCTL_BP_IS_STOPPED on a file returns 1 exactly if the file's task
-- waits in a work for this file.
pub is_stopped_lem :
    (s : Debugger) (file : ℕ) (d : PrivateData)
    → Reachable s
    → s.files file ≡ some d
    → (ioctl s file bp_is_stopped ≡ some (ok 1, s)) ↔ ((s.tasks d.target_task).held ≡ some file)
unfolding ioctl
is_stopped_lem s file d reach here =
    let c = Reachable-IsConsistent s reach in
    (
      λ e. ground (arith, c.stopped_held file d here),
      λ q. ground (arith, c.held_stopped d.target_task file d q here),
    )

hit_end_lem :
    (s : Debugger) (pid file : ℕ) (d : PrivateData)
    → (s.tasks pid).held ≡ some file
    → s.files file ≡ some d
    → d.continue_flag ≡ true
    → hit_end s pid ≡ some (ended s pid file d)
unfolding hit_end
hit_end_lem s pid file d held here going = ground arith

pub ioctl_stopped :
    (s : Debugger) (file : ℕ) (d : PrivateData) (cmd : IoctlCommand)
    → s.files file ≡ some d
    → d.stopped_flag ≡ true
    → ioctl s file cmd ≡ some (when_stopped s file d cmd)
unfolding ioctl
ioctl_stopped s file d cmd here stopped = rw (ioctl, here, stopped) refl

ioctl_running :
    (s : Debugger) (file : ℕ) (d : PrivateData) (cmd : IoctlCommand)
    → s.files file ≡ some d
    → d.stopped_flag ≡ false
    → ioctl s file cmd ≡ some (when_running cmd, s)
unfolding ioctl
ioctl_running s file d cmd here running = rw (ioctl, here, running) refl

pub assign_self : {A : Type 0} → (f : ℕ → A) (k : ℕ) (a : A) → assign f k a k ≡ a
assign_self f k a = ground arith

step_handler_first :
    (s : Debugger) (pid : ℕ) (e : StepListEntry) (rest : List StepListEntry)
    → s.step_list ≡ e ∷ rest
    → e.pid ≡ pid
    → e.removed ≡ false
    → step_handler s pid ≡ (handled, stepped s pid e rest)
unfolding step_handler take_step
step_handler_first s pid e rest first own live =
    let found : take_step pid s.step_list ≡ some (e, rest) =
      rw (first, take_step, own, ==_self pid) refl in
    rw (step_handler, found, live) refl

-- In every state that can be reached the task of a stopped file can be let go on: IOCTL_BP_CONTINUE returns 0, after it the task's work
-- ends, which leaves the file as not stopped, so that a second IOCTL_BP_CONTINUE is refused.
pub continue_lem :
    (s : Debugger) (file : ℕ) (d : PrivateData)
    → Reachable s
    → s.files file ≡ some d
    → d.stopped_flag ≡ true
    → (t : Debugger) × (u : Debugger) × (ioctl s file bp_continue ≡ some (ok 0, t))
      × (hit_end t d.target_task ≡ some u)
      × ((u.tasks d.target_task).held ≡ none)
      × (ioctl u file bp_continue ≡ some (err einval, u))
continue_lem s file d reach here stopped =
    let c = Reachable-IsConsistent s reach in
    let held : (s.tasks d.target_task).held ≡ some file = c.stopped_held file d here stopped in
    let woken : PrivateData = record d { continue_flag = true } in
    let t = set_file s file woken in
    let u = ended t d.target_task file woken in
    let gone : PrivateData = record woken {
      poll = false;
      continue_flag = false;
      stopped_flag = false;
    } in
    (
      t,
      u,
      ioctl_stopped s file d bp_continue here stopped,
      hit_end_lem t d.target_task file woken held (assign_self s.files file (some woken)) refl,
      ap (λ (k : Task). k.held)
          (assign_self t.tasks d.target_task (record (s.tasks d.target_task) { held = none })),
      ioctl_running u file gone bp_continue (assign_self t.files file (some gone)) refl,
    )

-- In every state that can be reached IOCTL_BP_STEP on a stopped file returns 0, after it the task's work ends, and when the task has made
-- its step the step's handler takes the entry away again and queues a work for the same file behind
-- those that the task has; the flag of single stepping is off.
pub step_lem :
    (s : Debugger) (file : ℕ) (d : PrivateData)
    → Reachable s
    → s.files file ≡ some d
    → d.stopped_flag ≡ true
    → (t : Debugger) × (u : Debugger) × (v : Debugger) × (ioctl s file bp_step ≡ some (ok 0, t))
      × (hit_end t d.target_task ≡ some u)
      × (step_handler u d.target_task ≡ (handled, v))
      × ((v.tasks d.target_task).works ≡ (s.tasks d.target_task).works ++ (file ∷ []))
      × ((v.tasks d.target_task).single_step ≡ false)
      × (v.step_list ≡ s.step_list)
step_lem s file d reach here stopped =
    let c = Reachable-IsConsistent s reach in
    let pid = d.target_task in
    let held : (s.tasks pid).held ≡ some file = c.stopped_held file d here stopped in
    let woken : PrivateData = record d { continue_flag = true } in
    let entry : StepListEntry = record { pid = pid; file = file; removed = false } in
    let t = step s file d in
    let at_t = assign_self s.tasks pid (user_enable_single_step (s.tasks pid)) in
    let u = ended t pid file woken in
    let v = stepped u pid entry s.step_list in
    let at_u = assign_self t.tasks pid (record (t.tasks pid) { held = none }) in
    let at_v =
      assign_self u.tasks pid (record (u.tasks pid) {
        works = (u.tasks pid).works ++ (file ∷ []);
        single_step = false;
      }) in
    (
      t,
      u,
      v,
      ioctl_stopped s file d bp_step here stopped,
      hit_end_lem t pid file woken (ap (λ (k : Task). k.held) at_t ∙ held)
          (assign_self s.files file (some woken)) refl,
      step_handler_first u pid entry s.step_list refl refl refl,
      ap (λ (k : Task). k.works) at_v
          ∙ ap (λ (k : Task). k.works ++ (file ∷ [])) (at_u)
          ∙ ap (λ (k : Task). k.works ++ (file ∷ [])) at_t,
      ap (λ (k : Task). k.single_step) at_v,
      refl,
    )
