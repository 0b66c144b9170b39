-- ===== src/Kernel/Tests/Creation.antt =====
-- A breakpoint is made on a module that holds nothing.
use rw_mem.Common.{ℕ, ◌-◌, ◌^◌, ◌≡◌, refl, true, none, some, List, ◌∷◌, ◌++◌, arith, store, load}
use rw_mem.Common.Result.{ok}
use rw_mem.Kernel.Breakpoint.Begins.{new_file}
use rw_mem.Kernel.Breakpoint.Protocol.{Reachable, start}
use rw_mem.Kernel.AddBp.{
  Asked, Holdings, attr_of, callback_context, callback_file, create_rwmem_bp_file, close_fd,
  add_for_task, add_bp,
}
use rw_mem.Kernel.AddBp.Laws.{IsFresh, made, assign-assign}
use rw_mem.Kernel.AddBp.Branches.{AddsBp, add_bp_lem}
use rw_mem.Kernel.AddBp.Ends.{close_fd-add_bp, add_bp-Reachable}
use rw_mem.Kernel.AddBp.Tag.{callback_file-callback_context}
use rw_mem.Kernel.Tests.{idle}

callback_file-callback_context_example :
    callback_file (callback_context (2 ^ 64 - 4096)) ≡ 2 ^ 64 - 4096
callback_file-callback_context_example = callback_file-callback_context (2 ^ 64 - 4096) refl

abbrev pub some_answers : Asked
some_answers = record {
  find_get_pid = λ _. true;
  get_pid_task = λ _. some 9;
  get_unused_fd_flags = ok 3;
  anon_inode_getfile = ok 5;
  perf_event_create_kernel_counter = λ _. ok 7;
}

abbrev pub nothing_yet : Holdings
nothing_yet = record {
  debugger = idle;
  event = λ _. none;
  fds = λ _. none;
  references = λ _. 0;
  breakpoints = λ _. none;
  allocated = 0;
}

some_answers-IsFresh : IsFresh some_answers nothing_yet
some_answers-IsFresh = record {
  fd = λ n e. refl;
  file = λ f e. ((refl, λ pid. (refl, λ q. absurd (ground arith), refl)), refl);
  event = λ attr n e. refl;
  task = λ pid t e q. absurd (ground arith);
}

-- Process 42, a breakpoint on execution of four bytes.
abbrev some_params : List ℕ
some_params = store 4 42 ++ (4 ∷ 4 ∷ 0 ∷ 0 ∷ store 8 65536)

add_bp_lem_example :
    AddsBp some_answers nothing_yet some_params (add_bp some_answers nothing_yet some_params)
add_bp_lem_example = add_bp_lem some_answers nothing_yet some_answers-IsFresh some_params

abbrev one_bp : Holdings
one_bp = made nothing_yet 3 5 7 9 (attr_of 9 65536 4 4 5)

one_bp_added : add_bp some_answers nothing_yet some_params ≡ some (ok 3, one_bp)
unfolding add_bp add_for_task create_rwmem_bp_file store load
one_bp_added = λ i. some (
  ok 3,
  record one_bp {
    debugger = record idle {
      files = assign-assign idle.files 5 (some (new_file 9)) (some (new_file 0)) i;
    };
    event = assign-assign nothing_yet.event 5 (some 7) none i;
    fds = assign-assign nothing_yet.fds 3 (some (some 5)) (some none) i;
  },
)

close_fd-add_bp_example :
    (file : ℕ) × (one_bp.fds 3 ≡ some (some file)) × (close_fd one_bp 3 file ≡ some nothing_yet)
close_fd-add_bp_example =
    close_fd-add_bp some_answers nothing_yet some_answers-IsFresh some_params 3 one_bp one_bp_added

add_bp-Reachable_example : Reachable one_bp.debugger
add_bp-Reachable_example =
    add_bp-Reachable some_answers nothing_yet some_answers-IsFresh some_params (ok 3) one_bp
      one_bp_added (start (record { no_files = λ _. refl }))
