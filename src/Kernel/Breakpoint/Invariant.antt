-- ===== src/Kernel/Breakpoint/Invariant.antt =====
-- What holds of rwMem/bp.c however its calls, the breakpoints and the steps of the tasks are ordered.
use rw_mem.Common.{
  ℕ, ◌≡◌, refl, subst, ◌⊎◌, inl, inr, Bool, true, false, Option, some, List, [], ◌∷◌, ◌++◌, ◌==◌,
  arith, Option-cases, Bool-cases,
}
use rw_mem.Kernel.Breakpoint.{
  PrivateData, StepListEntry, Task, Debugger, set_file, set_task, hit_begin, hit_end, take_step,
  HookResult, step_handler, mark_removed, release, poll_file,
}
use rw_mem.Kernel.Breakpoint.Begins.{
  steps_for, IsConsistent, has-append, hit_begin-begun, begun-IsConsistent, hit_end-ended,
  ended-IsConsistent,
}

mark_removed-steps_for :
    (g pid file : ℕ) (es : List StepListEntry)
    → steps_for pid file (mark_removed g es) ≡ steps_for pid file es
unfolding mark_removed
mark_removed-steps_for g pid file [] = refl
mark_removed-steps_for g pid file (e ∷ es) = ground (arith, mark_removed-steps_for g pid file es)

pub released-IsConsistent :
    (s : Debugger) (file : ℕ) → IsConsistent s → IsConsistent (release s file)
unfolding release
released-IsConsistent s file c = record {
  own_works = λ p f e q l. ground (arith, c.own_works p f e);
  own_steps =
      λ p f e q l. ground (arith, c.own_steps p f e, mark_removed-steps_for file p f s.step_list);
  stopped_held = λ f e l q. ground (arith, c.stopped_held f e);
  held_stopped = λ p f e q l. ground (arith, c.held_stopped p f e);
}

take_step-steps_for :
    (pid : ℕ) (es rest : List StepListEntry) (e : StepListEntry)
    → take_step pid es ≡ some (e, rest)
    → (e.pid ≡ pid)
      × (steps_for pid e.file es ≡ true)
      × ((p f : ℕ) → steps_for p f rest ≡ true → steps_for p f es ≡ true)
unfolding take_step
take_step-steps_for pid [] rest e h = absurd (ground arith)
take_step-steps_for pid (x ∷ es) rest e h = elim (Bool-cases (x.pid == pid)) [
  | inl y ↦
      let same : ◌≡◌ {A = Option (StepListEntry × List StepListEntry)} (some (x, es))
          (some (e, rest)) =
        ground (arith, h) in
      (ground arith, ground arith, λ p f q. ground arith)
  | inr n ↦ elim (Option-cases (take_step pid es)) [
    | inl z ↦ absurd (ground arith)
    | inr ((found, others), z) ↦
        let (a, b, more) = take_step-steps_for pid es others found z in
        let same : ◌≡◌ {A = Option (StepListEntry × List StepListEntry)} (some (found, x ∷ others))
            (some (e, rest)) =
          ground arith in
        (ground arith, ground arith, λ p f q. ground (arith, more p f))
  ]
]

abbrev pub stepped : Debugger → ℕ → StepListEntry → List StepListEntry → Debugger
stepped s pid e rest =
    set_task (record s { step_list = rest }) pid
      (record (s.tasks pid) { works = (s.tasks pid).works ++ (e.file ∷ []); single_step = false })

step_handler-cases :
    (s t : Debugger) (pid : ℕ) (r : HookResult)
    → step_handler s pid ≡ (r, t)
    → (s ≡ t)
      ⊎ ((e : StepListEntry) × (rest : List StepListEntry) × (take_step pid s.step_list
            ≡ some (e, rest))
          × ((record s { step_list = rest } ≡ t) ⊎ (stepped s pid e rest ≡ t)))
unfolding step_handler
step_handler-cases s t pid r h = elim (Option-cases (take_step pid s.step_list)) [
  | inl z ↦ inl (ground arith)
  | inr ((e, rest), z) ↦ elim (Bool-cases e.removed) [
    | inl y ↦ inr (e, rest, z, inl (ground arith))
    | inr n ↦ inr (e, rest, z, inr (ground arith))
  ]
]

module _ (s : Debugger) (pid : ℕ) (e : StepListEntry) (rest : List StepListEntry)
    (found : take_step pid s.step_list ≡ some (e, rest)) (c : IsConsistent s) where
  fewer-IsConsistent : IsConsistent (record s { step_list = rest })
  fewer-IsConsistent =
      let (a, b, more) = take_step-steps_for pid s.step_list rest e found in
      record {
        own_works = c.own_works;
        own_steps = λ p f d q l. c.own_steps p f d (more p f q) l;
        stopped_held = c.stopped_held;
        held_stopped = c.held_stopped;
      }

  stepped-IsConsistent : IsConsistent (stepped s pid e rest)
  stepped-IsConsistent =
      let (a, b, more) = take_step-steps_for pid s.step_list rest e found in
      record {
        own_works = λ p f d q l.
            ground (
              arith,
              c.own_works p f d,
              c.own_steps pid f d,
              has-append f e.file (s.tasks p).works,
            );
        own_steps = λ p f d q l. c.own_steps p f d (more p f q) l;
        stopped_held = λ f d l q. ground (arith, c.stopped_held f d);
        held_stopped = λ p f d q l. ground (arith, c.held_stopped p f d);
      }

pub step_handler-IsConsistent :
    (s t : Debugger) (pid : ℕ) (r : HookResult)
    → step_handler s pid ≡ (r, t)
    → IsConsistent s
    → IsConsistent t
step_handler-IsConsistent s t pid r h c = elim (step_handler-cases s t pid r h) [
  | inl same ↦ subst IsConsistent same c
  | inr (e, rest, found, inl same) ↦
      subst IsConsistent same (fewer-IsConsistent s pid e rest found c)
  | inr (e, rest, found, inr same) ↦
      subst IsConsistent same (stepped-IsConsistent s pid e rest found c)
]

pub poll_file-IsConsistent :
    (s t : Debugger) (file : ℕ) (r : Bool)
    → poll_file s file ≡ some (r, t)
    → IsConsistent s
    → IsConsistent t
unfolding poll_file
poll_file-IsConsistent s t file r h c = elim (Option-cases (s.files file)) [
  | inl z ↦ absurd (ground arith)
  | inr (d, here) ↦
      let same : set_file s file (record d { poll = false }) ≡ t = ground arith in
      subst IsConsistent same (record {
        own_works = λ p f e q l. ground (arith, c.own_works p f e, c.own_works p f d);
        own_steps = λ p f e q l. ground (arith, c.own_steps p f e, c.own_steps p f d);
        stopped_held = λ f e l q. ground (arith, c.stopped_held f e, c.stopped_held f d);
        held_stopped = λ p f e q l. ground (arith, c.held_stopped p f e, c.held_stopped p f d);
      })
]

-- a call that leaves the works and the files' flags but for `continue_flag`, and the step list but
-- for an entry of the file's own task
module _ (s : Debugger) (file : ℕ) (d : PrivateData) (here : s.files file ≡ some d)
    (c : IsConsistent s) where
  pub waking-IsConsistent : IsConsistent (set_file s file (record d { continue_flag = true }))
  waking-IsConsistent = record {
    own_works = λ p f e q l. ground (arith, c.own_works p f e, c.own_works p f d);
    own_steps = λ p f e q l. ground (arith, c.own_steps p f e, c.own_steps p f d);
    stopped_held = λ f e l q. ground (arith, c.stopped_held f e, c.stopped_held f d);
    held_stopped = λ p f e q l. ground (arith, c.held_stopped p f e, c.held_stopped p f d);
  }

  pub entry-IsConsistent : IsConsistent (record s {
    step_list = record { pid = d.target_task; file = file; removed = false } ∷ s.step_list;
  })
  entry-IsConsistent = record {
    own_works = c.own_works;
    own_steps = λ p f e q l. ground (arith, c.own_steps p f e);
    stopped_held = c.stopped_held;
    held_stopped = c.held_stopped;
  }

-- a task's registers and flags
pub task-IsConsistent :
    (s : Debugger) (pid : ℕ) (t : Task)
    → t.works ≡ (s.tasks pid).works
    → t.held ≡ (s.tasks pid).held
    → IsConsistent s
    → IsConsistent (set_task s pid t)
task-IsConsistent s pid t a b c = record {
  own_works = λ p f e q l. ground (arith, c.own_works p f e);
  own_steps = c.own_steps;
  stopped_held = λ f e l q. ground (arith, c.stopped_held f e);
  held_stopped = λ p f e q l. ground (arith, c.held_stopped p f e);
}

pub hit_begin-IsConsistent :
    (s t : Debugger) (pid i : ℕ) → hit_begin s pid i ≡ some t → IsConsistent s → IsConsistent t
hit_begin-IsConsistent s t pid i h c =
    let (file, more, d, free, queued, here, same) = hit_begin-begun s t pid i h in
    subst IsConsistent same (begun-IsConsistent s pid file more d free queued here c)

pub hit_end-IsConsistent :
    (s t : Debugger) (pid : ℕ) → hit_end s pid ≡ some t → IsConsistent s → IsConsistent t
hit_end-IsConsistent s t pid h c =
    let (file, d, holds, here, going, same) = hit_end-ended s t pid h in
    subst IsConsistent same (ended-IsConsistent s pid file d holds here c)
