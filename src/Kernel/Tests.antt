-- ===== src/Kernel/Tests.antt =====
-- The kernel module's parts on small states.
pub mod Transfers
pub mod Creation
use rw_mem.Common.{
  ℕ, ◌+◌, ◌*◌, ◌≤◌, ◌<◌, ◌≡◌, refl, ◌⊎◌, ◌↔◌, ◌≢◌, true, false, Option, none, some, List, [], ◌∷◌,
  ◌++◌, arith, length, drop, take, replicate, load,
}
use rw_mem.Common.Result.{ok, err, einval}
use rw_mem.Kernel.Maps.{Vma, Mm, maps_loop}
use rw_mem.Kernel.Maps.Layout.{maps_loop-Keeps, maps_loop_pass}
use rw_mem.Kernel.Breakpoint.{
  PrivateData, Task, Debugger, take_work, hit_begin, hit_end, handled, step_handler, ioctl,
  bp_continue, bp_step, bp_is_stopped, bp_set_reg, read, bp_callback, set_file, task_work_add,
}
use rw_mem.Kernel.Breakpoint.Begins.{IsConsistent, add_bp, meet, begin, begun, new_file}
use rw_mem.Kernel.Breakpoint.Protocol.{
  Reachable, start, next, Reachable-IsConsistent, is_stopped_lem, continue_lem, step_lem,
}
use rw_mem.Kernel.Breakpoint.Registers.{set_reg-read}

abbrev some_vmas : List Vma
some_vmas =
    record {
      vm_start = 4096;
      vm_end = 8192;
      vm_read = true;
      vm_write = false;
      vm_exec = true;
      vm_mayshare = false;
      vm_file = some (b'a' ∷ []);
    }
    ∷ record {
      vm_start = 8192;
      vm_end = 16384;
      vm_read = true;
      vm_write = true;
      vm_exec = false;
      vm_mayshare = true;
      vm_file = none;
    }
    ∷ []

abbrev some_memory : List ℕ
some_memory = replicate 30 7

abbrev some_mm : Mm
some_mm = record {
  mmap = some_vmas;
  map_count = 2;
  vdso = 0;
  brk = 0;
  start_brk = 0;
  start_stack = 0;
}

maps_loop-Keeps_example :
    let (n, m, pass) = maps_loop some_mm some_vmas 4 24 some_memory in
    (length m ≡ length some_memory) × (drop 24 m ≡ drop 24 some_memory) × (n ≤ 1)
maps_loop-Keeps_example =
    maps_loop-Keeps some_mm some_vmas 4 1 24 some_memory (omega arith) (omega arith)

maps_loop_pass_example :
    let (n, m, pass) = maps_loop some_mm some_vmas 4 24 some_memory in
    ((pass ≡ false) × (n ≡ 2)) ⊎ ((pass ≡ true) × (n < 2))
maps_loop_pass_example = maps_loop_pass some_mm some_vmas 4 24 some_memory

abbrev pub idle_task : Task
idle_task = record {
  regs = replicate 34 0;
  vregs = replicate 32 0;
  fpsr = 0;
  fpcr = 0;
  single_step = false;
  suspended_step = false;
  works = [];
  held = none;
}

abbrev pub idle : Debugger
idle = record { files = λ _. none; step_list = []; tasks = λ _. idle_task }

-- File 5 on task 9, which has met the breakpoint, and whose work has begun.
abbrev made : Debugger
made = set_file idle 5 (new_file 9)

abbrev met : Debugger
met = task_work_add made 9 5

abbrev stopped : Debugger
stopped = begun met 9 5 [] (new_file 9)

abbrev stopped_data : PrivateData
stopped_data = record (new_file 9) { stopped_flag = true; poll = true }

pub nothing_held : ◌≢◌ {A = Option ℕ} none (some 5)
nothing_held e = absurd (ground arith)

met-Reachable : Reachable met
unfolding bp_callback
met-Reachable =
    next
      (next (start {s = idle} (record { no_files = λ _. refl }))
        (add_bp 5 9 (refl, λ pid. (refl, nothing_held, refl))))
      (meet 5 (new_file 9) refl)

stopped-Reachable : Reachable stopped
unfolding hit_begin take_work
stopped-Reachable = next met-Reachable (begin 9 0 refl)

Reachable-IsConsistent_example : IsConsistent stopped
Reachable-IsConsistent_example = Reachable-IsConsistent stopped stopped-Reachable

is_stopped_lem_example :
    (ioctl stopped 5 bp_is_stopped ≡ some (ok 1, stopped)) ↔ ((stopped.tasks 9).held ≡ some 5)
is_stopped_lem_example = is_stopped_lem stopped 5 stopped_data stopped-Reachable refl

continue_lem_example :
    (t : Debugger) × (u : Debugger) × (ioctl stopped 5 bp_continue ≡ some (ok 0, t))
    × (hit_end t 9 ≡ some u)
    × ((u.tasks 9).held ≡ none)
    × (ioctl u 5 bp_continue ≡ some (err einval, u))
continue_lem_example = continue_lem stopped 5 stopped_data stopped-Reachable refl refl

step_lem_example :
    (t : Debugger) × (u : Debugger) × (v : Debugger) × (ioctl stopped 5 bp_step ≡ some (ok 0, t))
    × (hit_end t 9 ≡ some u)
    × (step_handler u 9 ≡ (handled, v))
    × ((v.tasks 9).works ≡ [] ++ (5 ∷ []))
    × ((v.tasks 9).single_step ≡ false)
    × (v.step_list ≡ [])
step_lem_example = step_lem stopped 5 stopped_data stopped-Reachable refl refl

set_reg-read_example :
    (t : Debugger) × (bytes : List ℕ) × (ioctl stopped 5 (bp_set_reg (some (32, 1000)))
      ≡ some (ok 0, t))
    × (read 336 (true, true) t 5 800 ≡ some (ok (336 + 528), bytes))
    × (load (take 8 (drop (8 * 32) bytes)) ≡ 1000)
set_reg-read_example =
    set_reg-read stopped 5 32 1000 800 336 stopped_data refl refl refl (omega arith) (omega arith)
      (omega arith)
