-- ===== src/Kernel/Breakpoint.antt =====
-- rwMem/bp.c: what a breakpoint's file does, and how the stopped task and the reader of the file wait
-- for each other.
--
-- A file is named by a number, the pointer to its `struct file`, and its private data are there
-- until it is released. A task runs the works that were queued for it one after the other, in no
-- order that the kernel promises; the work of `bp_callback_after` is cut where it waits, into `hit_begin` and `hit_end`.
pub mod Begins
pub mod Invariant
pub mod Protocol
pub mod Registers
use rw_mem.Common.{
  ℕ, zero, suc, ◌+◌, ◌*◌, ◌/◌, ◌%◌, ◌^◌, Bool, true, false, ◌&&◌, ◌||◌, Option, none, some, List,
  [], ◌∷◌, ◌++◌, ltb, leb, ◌==◌, if◌then◌else◌, set, store,
}
use rw_mem.Common.Result.{Result, ok, err, einval, efault}

-- `struct rwmem_bp_private_data`: the two flags, whether `poll` reports an event, and the task.
pub record PrivateData : Type 0 where
  pub stopped_flag : Bool
  pub continue_flag : Bool
  pub poll : Bool
  pub target_task : ℕ

-- `struct step_list_entry`
pub record StepListEntry : Type 0 where
  pub pid : ℕ
  pub file : ℕ
  pub removed : Bool

-- What a task has for the module: the 34 words of its `user_regs`, its floating-point state, the
-- flags of single stepping, the files of the queued works, and the file whose work it is in.
pub record Task : Type 0 where
  pub regs : List ℕ
  pub vregs : List ℕ
  pub fpsr : ℕ
  pub fpcr : ℕ
  pub single_step : Bool
  pub suspended_step : Bool
  pub works : List ℕ
  pub held : Option ℕ

pub record Debugger : Type 0 where
  pub files : ℕ → Option PrivateData
  pub step_list : List StepListEntry
  pub tasks : ℕ → Task

module _ {A : Type 0} where
  abbrev pub assign : (ℕ → A) → ℕ → A → ℕ → A
  assign f k a j = if k == j then a else f j

abbrev pub set_file : Debugger → ℕ → PrivateData → Debugger
set_file s file d = record s { files = assign s.files file (some d) }

abbrev pub set_task : Debugger → ℕ → Task → Debugger
set_task s pid t = record s { tasks = assign s.tasks pid t }

-- `task_work_add(current, …)` of a work for the file.
abbrev pub task_work_add : Debugger → ℕ → ℕ → Debugger
task_work_add s pid file =
    let t = s.tasks pid in set_task s pid (record t { works = t.works ++ (file ∷ []) })

-- `bp_callback`, in the task that met the breakpoint.
unfoldable pub bp_callback : Debugger → ℕ → ℕ → Debugger
bp_callback s pid file = task_work_add s pid file

-- The kernel's choice of a work that is queued, and the others.
unfoldable pub take_work : ℕ → List ℕ → Option (ℕ × List ℕ)
take_work i [] = none
take_work zero (w ∷ ws) = some (w, ws)
take_work (suc i) (w ∷ ws) = elim (take_work i ws) [
  | none ↦ none
  | some (file, rest) ↦ some (file, w ∷ rest)
]

-- `bp_callback_after` for one of the works, up to its wait; `none` if the task has no such work to
-- begin, or if the file's data are gone.
unfoldable pub hit_begin : Debugger → ℕ → ℕ → Option Debugger
hit_begin s pid i =
    let t = s.tasks pid in
    elim t.held [
      | some _ ↦ none
      | none ↦ elim (take_work i t.works) [
        | none ↦ none
        | some (file, more) ↦ elim (s.files file) [
          | none ↦ none
          | some d ↦ some (
              set_task (set_file s file (record d { stopped_flag = true; poll = true })) pid
                (record t { works = more; held = some file }))
        ]
      ]
    ]

-- The rest of `bp_callback_after`; `none` while it has to wait, and if the file's data are gone.
unfoldable pub hit_end : Debugger → ℕ → Option Debugger
hit_end s pid =
    let t = s.tasks pid in
    elim t.held [
      | none ↦ none
      | some file ↦ elim (s.files file) [
        | none ↦ none
        | some d ↦
            if d.continue_flag
            then some (
                set_task
                  (set_file s file
                    (record d { poll = false; continue_flag = false; stopped_flag = false }))
                  pid (record t { held = none }))
            else none
      ]
    ]

-- The search of `rwmem_bp_step_handler`: the first entry of the task, and the list without it.
unfoldable pub take_step : ℕ → List StepListEntry → Option (StepListEntry × List StepListEntry)
take_step pid [] = none
take_step pid (e ∷ es) =
    let later = take_step pid es in
    if e.pid == pid
    then some (e, es)
    else elim later [ none ↦ none | some (found, rest) ↦ some (found, e ∷ rest) ]

pub data HookResult : Type 0 where
  handled hook_error : HookResult

-- `rwmem_bp_step_handler`, in the task that has made a step.
unfoldable pub step_handler : Debugger → ℕ → HookResult × Debugger
step_handler s pid = elim (take_step pid s.step_list) [
  | none ↦ (hook_error, s)
  | some (e, rest) ↦
      let s' : Debugger = record s { step_list = rest } in
      if e.removed then (handled, s') else (
        handled,
        let t = s.tasks pid in
            set_task s' pid (record t { works = t.works ++ (e.file ∷ []); single_step = false }),
      )
]

-- The first entry of the file is marked as removed.
unfoldable pub mark_removed : ℕ → List StepListEntry → List StepListEntry
mark_removed file [] = []
mark_removed file (e ∷ es) =
    if e.file == file then record e { removed = true } ∷ es else e ∷ mark_removed file es

-- `rwmem_bp_release` up to the call that wakes the task up; until the data are freed, the task can end
-- the work that it waits in.
unfoldable pub release_wake : Debugger → ℕ → Debugger
release_wake s file = elim (s.files file) [
  | none ↦ s
  | some d ↦ set_file s file (record d { continue_flag = true })
]

-- `rwmem_bp_release` to its end: the data are freed. What a task that has not gone on by then does with
-- them is not modelled: it stays where it is.
unfoldable pub release : Debugger → ℕ → Debugger
release s file = record s {
  step_list = mark_removed file s.step_list;
  files = assign s.files file none;
}

-- `rwmem_bp_poll`: the events, which are cleared.
unfoldable pub poll_file : Debugger → ℕ → Option (Bool × Debugger)
poll_file s file = elim (s.files file) [
  | none ↦ none
  | some d ↦ some (d.poll, set_file s file (record d { poll = false }))
]

-- The parameter of a call, or that it could not be copied from the caller.
pub data IoctlCommand : Type 0 where
  bp_continue : IoctlCommand
  bp_set_reg : Option (ℕ × ℕ) → IoctlCommand
  bp_set_simd_reg : Option (ℕ × ℕ) → IoctlCommand
  bp_step : IoctlCommand
  bp_is_stopped : IoctlCommand
  bp_unknown : IoctlCommand

abbrev pub set_reg : Debugger → ℕ → Option (ℕ × ℕ) → Result ℕ × Debugger
set_reg s pid none = (err efault, s)
set_reg s pid (some (id, value)) =
    let t = s.tasks pid in
    if leb 34 id
    then (err einval, s)
    else (ok 0, set_task s pid (record t { regs = set t.regs id value }))

abbrev pub set_simd_reg : Debugger → ℕ → Option (ℕ × ℕ) → Result ℕ × Debugger
set_simd_reg s pid none = (err efault, s)
set_simd_reg s pid (some (id, value)) =
    let t = s.tasks pid in
    if ltb id 32
    then (ok 0, set_task s pid (record t { vregs = set t.vregs id value }))
    else if id == 32
    then (ok 0, set_task s pid (record t { fpsr = value % 2 ^ 32 }))
    else if id == 33
    then (ok 0, set_task s pid (record t { fpcr = value % 2 ^ 32 }))
    else (err einval, s)

-- The flag of single stepping is set; if it was, the step is marked as suspended.
abbrev pub user_enable_single_step : Task → Task
user_enable_single_step t = record t {
  single_step = true;
  suspended_step = t.single_step || t.suspended_step;
}

-- The new entry, the flag of single stepping, and the wake-up.
abbrev pub step : Debugger → ℕ → PrivateData → Debugger
step s file d =
    let entry : StepListEntry = record { pid = d.target_task; file = file; removed = false } in
    let s' : Debugger = record s { step_list = entry ∷ s.step_list } in
    set_task (set_file s' file (record d { continue_flag = true })) d.target_task
      (user_enable_single_step (s.tasks d.target_task))

-- The cases of `rwmem_bp_ioctl` once the target is stopped.
abbrev pub when_stopped : Debugger → ℕ → PrivateData → IoctlCommand → Result ℕ × Debugger
when_stopped s file d bp_continue = (ok 0, set_file s file (record d { continue_flag = true }))
when_stopped s file d (bp_set_reg param) = set_reg s d.target_task param
when_stopped s file d (bp_set_simd_reg param) = set_simd_reg s d.target_task param
when_stopped s file d bp_step = (ok 0, step s file d)
when_stopped s file d bp_is_stopped = (ok 1, s)
when_stopped s file d bp_unknown = (err einval, s)

abbrev pub when_running : IoctlCommand → Result ℕ
when_running bp_is_stopped = ok 0
when_running bp_continue = err einval
when_running (bp_set_reg param) = err einval
when_running (bp_set_simd_reg param) = err einval
when_running bp_step = err einval
when_running bp_unknown = err einval

-- `rwmem_bp_ioctl`; `none` if the file's data are gone.
unfoldable pub ioctl : Debugger → ℕ → IoctlCommand → Option (Result ℕ × Debugger)
ioctl s file cmd = elim (s.files file) [
  | none ↦ none
  | some d ↦ some (if d.stopped_flag then when_stopped s file d cmd else (when_running cmd, s))
]

unfoldable pub words : ℕ → List ℕ → List ℕ
words size [] = []
words size (x ∷ xs) = store size x ++ words size xs

-- `struct user_fpsimd_state`, whose last two words are reserved.
unfoldable pub fpsimd_state : Task → List ℕ
fpsimd_state t = words 16 t.vregs ++ store 4 t.fpsr ++ store 4 t.fpcr ++ store 8 0

-- `rwmem_bp_read`: the return value, and the bytes that are in the caller's buffer. The size of a
-- `struct pt_regs` is an argument, and so is whether the two copies to the caller succeed.
unfoldable pub read : ℕ → Bool × Bool → Debugger → ℕ → ℕ → Option (Result ℕ × List ℕ)
read sizeof_pt_regs (first, second) s file size = elim (s.files file) [
  | none ↦ none
  | some d ↦
      let t = s.tasks d.target_task in
      some (
        if d.stopped_flag
        then (if leb (272 + 528) size
            then (if first
                then (if second
                    then (ok (sizeof_pt_regs + 528), words 8 t.regs ++ fpsimd_state t)
                    else (err efault, words 8 t.regs))
                else (err efault, []))
            else if leb 272 size
            then (if first then (ok sizeof_pt_regs, words 8 t.regs) else (err efault, []))
            else (err einval, []))
        else (err einval, []))
]
