-- ===== src/Kernel/Breakpoint/Begins.antt =====
-- The states that rwMem/bp.c can be in, and the works of bp_callback_after between them.
use rw_mem.Common.{
  ℕ, zero, suc, ◌∙◌, ◌≡◌, ◌≢◌, inl, inr, Bool, true, false, ◌&&◌, ◌||◌, none, some, List, [], ◌∷◌,
  ◌++◌, ◌==◌, arith, Option-cases, Bool-cases,
}
use rw_mem.Common.Result.{Result}
use rw_mem.Kernel.Breakpoint.{
  PrivateData, StepListEntry, Debugger, set_file, set_task, bp_callback, take_work, hit_begin,
  hit_end, HookResult, step_handler, release_wake, release, poll_file, IoctlCommand, ioctl,
}

-- Whether a file is in the list, and whether a step entry is for the task and the file.
abbrev pub has : ℕ → List ℕ → Bool
has file [] = false
has file (g ∷ gs) = (g == file) || has file gs

abbrev pub steps_for : ℕ → ℕ → List StepListEntry → Bool
steps_for pid file [] = false
steps_for pid file (e ∷ es) = ((e.pid == pid) && (e.file == file)) || steps_for pid file es

-- A file is only worked on by its own task; the task whose work has begun and the file that is
-- marked as stopped are each other's.
pub record IsConsistent (s : Debugger) : Type 0 where
  pub own_works :
      (pid file : ℕ) (d : PrivateData)
      → has file (s.tasks pid).works ≡ true
      → s.files file ≡ some d
      → d.target_task ≡ pid
  pub own_steps :
      (pid file : ℕ) (d : PrivateData)
      → steps_for pid file s.step_list ≡ true
      → s.files file ≡ some d
      → d.target_task ≡ pid
  pub stopped_held :
      (file : ℕ) (d : PrivateData)
      → s.files file ≡ some d
      → d.stopped_flag ≡ true
      → (s.tasks d.target_task).held ≡ some file
  pub held_stopped :
      (pid file : ℕ) (d : PrivateData)
      → (s.tasks pid).held ≡ some file
      → s.files file ≡ some d
      → (d.target_task ≡ pid) × (d.stopped_flag ≡ true)

-- No work, step entry or task is left that a file of this address had before.
abbrev pub IsUnused : Debugger → ℕ → Type 0
IsUnused s file =
    (s.files file ≡ none)
    × ((pid : ℕ)
        → (has file (s.tasks pid).works ≡ false)
          × ((s.tasks pid).held ≢ some file)
          × (steps_for pid file s.step_list ≡ false))

abbrev pub new_file : ℕ → PrivateData
new_file pid = record {
  stopped_flag = false;
  continue_flag = false;
  poll = false;
  target_task = pid;
}

-- One step of the system: a file is made, a task meets the breakpoint of a file, begins or ends a
-- work or has made a single step, and a file is polled, told something, being released, or released.
pub data Step (s : Debugger) : Debugger → Type 0 where
  add_bp : (file pid : ℕ) → IsUnused s file → Step s (set_file s file (new_file pid))
  meet :
      (file : ℕ) (d : PrivateData)
      → s.files file ≡ some d
      → Step s (bp_callback s d.target_task file)
  begin : (pid i : ℕ) {t : Debugger} → hit_begin s pid i ≡ some t → Step s t
  end : (pid : ℕ) {t : Debugger} → hit_end s pid ≡ some t → Step s t
  single : (pid : ℕ) {r : HookResult} {t : Debugger} → step_handler s pid ≡ (r, t) → Step s t
  polled : (file : ℕ) {r : Bool} {t : Debugger} → poll_file s file ≡ some (r, t) → Step s t
  told :
      (file : ℕ) (cmd : IoctlCommand) {r : Result ℕ} {t : Debugger}
      → ioctl s file cmd ≡ some (r, t)
      → Step s t
  releasing : (file : ℕ) → Step s (release_wake s file)
  released : (file : ℕ) → Step s (release s file)

pub has-append : (f g : ℕ) (xs : List ℕ) → has f (xs ++ (g ∷ [])) ≡ (has f xs || (g == f))
has-append f g [] = ground arith
has-append f g (x ∷ xs) = ground (arith, has-append f g xs)

pub add_bp-IsConsistent :
    (s : Debugger) (file pid : ℕ)
    → IsUnused s file
    → IsConsistent s
    → IsConsistent (set_file s file (new_file pid))
add_bp-IsConsistent s file pid (no_file, unused) c = record {
  own_works = λ p f d q l. ground (arith, unused p, c.own_works p f d);
  own_steps = λ p f d q l. ground (arith, unused p, c.own_steps p f d);
  stopped_held = λ f d l q. ground (arith, c.stopped_held f d);
  held_stopped = λ p f d q l. ground (arith, unused p, c.held_stopped p f d);
}

pub meet-IsConsistent :
    (s : Debugger) (file : ℕ) (d : PrivateData)
    → s.files file ≡ some d
    → IsConsistent s
    → IsConsistent (bp_callback s d.target_task file)
unfolding bp_callback
meet-IsConsistent s file d here c = record {
  own_works = λ p f e q l. ground (arith, c.own_works p f e, has-append f file (s.tasks p).works);
  own_steps = c.own_steps;
  stopped_held = λ f e l q. ground (arith, c.stopped_held f e);
  held_stopped = λ p f e q l. ground (arith, c.held_stopped p f e);
}

abbrev pub begun : Debugger → ℕ → ℕ → List ℕ → PrivateData → Debugger
begun s pid file more d =
    set_task (set_file s file (record d { stopped_flag = true; poll = true })) pid
      (record (s.tasks pid) { works = more; held = some file })

take_work-has :
    (i : ℕ) (works more : List ℕ) (file : ℕ)
    → take_work i works ≡ some (file, more)
    → (f : ℕ) → has f works ≡ ((file == f) || has f more)
unfolding take_work
take_work-has zero [] more file e f = absurd (ground arith)
take_work-has (suc i) [] more file e f = absurd (ground arith)
take_work-has zero (w ∷ ws) more file e f = ground arith
take_work-has (suc i) (w ∷ ws) more file e f = elim (Option-cases (take_work i ws)) [
  | inl z ↦ absurd (ground arith)
  | inr ((g, rest), z) ↦ ground (arith, take_work-has i ws rest g z f)
]

pub hit_begin-begun :
    (s t : Debugger) (pid i : ℕ)
    → hit_begin s pid i ≡ some t
    → (file : ℕ) × (more : List ℕ) × (d : PrivateData) × ((s.tasks pid).held ≡ none)
      × ((f : ℕ) → has f (s.tasks pid).works ≡ ((file == f) || has f more))
      × (s.files file ≡ some d)
      × (begun s pid file more d ≡ t)
unfolding hit_begin
hit_begin-begun s t pid i e = elim (Option-cases (s.tasks pid).held) [
  | inr (f, z) ↦ absurd (ground arith)
  | inl z ↦ elim (Option-cases (take_work i (s.tasks pid).works)) [
    | inl y ↦ absurd (ground arith)
    | inr ((file, more), y) ↦ elim (Option-cases (s.files file)) [
      | inl x ↦ absurd (ground arith)
      | inr (d, x) ↦
          (file, more, d, z, take_work-has i (s.tasks pid).works more file y, x, ground arith)
    ]
  ]
]

pub begun-IsConsistent :
    (s : Debugger) (pid file : ℕ) (more : List ℕ) (d : PrivateData)
    → (s.tasks pid).held ≡ none
    → ((f : ℕ) → has f (s.tasks pid).works ≡ ((file == f) || has f more))
    → s.files file ≡ some d
    → IsConsistent s
    → IsConsistent (begun s pid file more d)
begun-IsConsistent s pid file more d free queued here c =
    let queued_file : has file (s.tasks pid).works ≡ true = queued file ∙ ground arith in
    let own : d.target_task ≡ pid = c.own_works pid file d queued_file here in
    record {
      own_works = λ p f e q l. ground (arith, c.own_works p f e, c.own_works p f d, queued f);
      own_steps = λ p f e q l. ground (arith, c.own_steps p f e, c.own_steps p f d);
      stopped_held = λ f e l q. ground (arith, c.stopped_held f e);
      held_stopped = λ p f e q l. ground (arith, c.held_stopped p f e, c.held_stopped p f d);
    }

abbrev pub ended : Debugger → ℕ → ℕ → PrivateData → Debugger
ended s pid file d =
    set_task
      (set_file s file (record d { poll = false; continue_flag = false; stopped_flag = false })) pid
      (record (s.tasks pid) { held = none })

pub hit_end-ended :
    (s t : Debugger) (pid : ℕ)
    → hit_end s pid ≡ some t
    → (file : ℕ) × (d : PrivateData) × ((s.tasks pid).held ≡ some file)
      × (s.files file ≡ some d)
      × (d.continue_flag ≡ true)
      × (ended s pid file d ≡ t)
unfolding hit_end
hit_end-ended s t pid e = elim (Option-cases (s.tasks pid).held) [
  | inl z ↦ absurd (ground arith)
  | inr (file, z) ↦ elim (Option-cases (s.files file)) [
    | inl x ↦ absurd (ground arith)
    | inr (d, x) ↦ elim (Bool-cases d.continue_flag) [
      | inr n ↦ absurd (ground arith)
      | inl y ↦ (file, d, z, x, y, ground arith)
    ]
  ]
]

pub ended-IsConsistent :
    (s : Debugger) (pid file : ℕ) (d : PrivateData)
    → (s.tasks pid).held ≡ some file
    → s.files file ≡ some d
    → IsConsistent s
    → IsConsistent (ended s pid file d)
ended-IsConsistent s pid file d holds here c = record {
  own_works = λ p f e q l. ground (arith, c.own_works p f e, c.own_works p f d);
  own_steps = λ p f e q l. ground (arith, c.own_steps p f e, c.own_steps p f d);
  stopped_held =
      λ f e l q. ground (arith, c.stopped_held f e, c.held_stopped pid file d holds here);
  held_stopped = λ p f e q l.
      ground
        (arith, c.held_stopped p f e, c.held_stopped p f d, c.held_stopped pid file d holds here);
}
