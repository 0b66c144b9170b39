-- ===== src/Kernel/AddBp/Laws.antt =====
-- What IOCTL_ADD_BP of rwMem/sys.c leaves behind.
use rw_mem.Common.{
  ℕ, ◌+◌, ◌-◌, ◌≡◌, ◌≢◌, refl, ap, ap₂, ◌∙◌, fun_ext, false, Option, none, some, List, [], ◌∷◌,
  arith,
}
use rw_mem.Common.Result.{Errno, Result, ok, err}
use rw_mem.Kernel.Breakpoint.{
  PrivateData, StepListEntry, Debugger, set_file, assign, release, mark_removed,
}
use rw_mem.Kernel.Breakpoint.Begins.{IsUnused, new_file, steps_for}
use rw_mem.Kernel.AddBp.{
  Attr, Asked, Holdings, hold_task, put_task_struct, set_fd, create_rwmem_bp_file, rwmem_bp_release,
  close_fd, attr_of, unregister, with_event, with_file, release_data, set_data, answer,
  add_for_task,
}

module _ {A : Type 0} (f : ℕ → A) (k : ℕ) (a : A) where
  pub assign-assign : (b : A) → assign (assign f k b) k a ≡ assign f k a
  assign-assign b = fun_ext (λ j. ground arith)

  pub assign_same : f k ≡ a → assign f k a ≡ f
  assign_same e = fun_ext (λ j. ground arith)

  pub here : assign f k a k ≡ a
  here = ground arith

  pub assign_back : (b : A) → f k ≡ a → assign (assign f k b) k a ≡ f
  assign_back b e = fun_ext (λ j. ground arith)

-- What the kernel gives is not in use, and a task that it gives is there.
pub record IsFresh (asked : Asked) (h : Holdings) : Type 0 where
  pub fd : (n : ℕ) → asked.get_unused_fd_flags ≡ ok n → h.fds n ≡ none
  pub file : (f : ℕ) → asked.anon_inode_getfile ≡ ok f → IsUnused h.debugger f × (h.event f ≡ none)
  pub event :
      (attr : Attr) (e : ℕ)
      → asked.perf_event_create_kernel_counter attr ≡ ok e
      → h.breakpoints e ≡ none
  pub task : (pid t : ℕ) → asked.get_pid_task pid ≡ some t → t ≢ 0

-- With a new breakpoint: its descriptor with the file, the file's data with the event and the task, which
-- is held once more, and the event itself.
abbrev pub made : Holdings → ℕ → ℕ → ℕ → ℕ → Attr → Holdings
made h fd file event task attr = record h {
  debugger = set_file h.debugger file (new_file task);
  event = assign h.event file (some event);
  fds = assign h.fds fd (some (some file));
  references = assign h.references task (h.references task + 1);
  breakpoints = assign h.breakpoints event (some attr);
  allocated = h.allocated + 1;
}

abbrev pub leaked : Holdings → Holdings
leaked h = record h { allocated = h.allocated + 1 }

no_mark :
    (file : ℕ) (es : List StepListEntry)
    → ((pid : ℕ) → steps_for pid file es ≡ false)
    → mark_removed file es ≡ es
unfolding mark_removed
no_mark file [] none_left = refl
no_mark file (e ∷ es) none_left =
    ground (arith, none_left e.pid, no_mark file es (λ pid. ground (arith, none_left pid)))

-- The end of a file that was unused before: its data are gone, and the steps are as they were.
pub release_new :
    (s : Debugger) (file : ℕ) (d : PrivateData)
    → IsUnused s file
    → release (set_file s file d) file ≡ s
unfolding release
release_new s file d (no_file, unused) =
    ap₂
      (λ (fs : ℕ → Option PrivateData) (es : List StepListEntry). record s {
        files = fs;
        step_list = es;
      })
      (assign_back s.files file none (some d) no_file)
      (no_mark file s.step_list (λ pid. (unused pid).2))

-- A file as it is made: its data are all zero.
abbrev created : Holdings → ℕ → Holdings
created h file = record h {
  debugger = set_file h.debugger file (new_file 0);
  event = assign h.event file none;
  allocated = h.allocated + 1;
}

create_ok :
    (asked : Asked) (h : Holdings) (file : ℕ)
    → asked.anon_inode_getfile ≡ ok file
    → create_rwmem_bp_file asked h ≡ (ok file, created h file)
unfolding create_rwmem_bp_file
create_ok asked h file e = rw (e, create_rwmem_bp_file) refl

create_err :
    (asked : Asked) (h : Holdings) (e : Errno)
    → asked.anon_inode_getfile ≡ err e
    → create_rwmem_bp_file asked h ≡ (err e, leaked h)
unfolding create_rwmem_bp_file
create_err asked h e n = rw (n, create_rwmem_bp_file) refl

-- A file without an event and a task is closed.
close_empty :
    (h : Holdings) (fd file : ℕ)
    → h.debugger.files file ≡ some (new_file 0)
    → h.event file ≡ none
    → close_fd h fd file
      ≡ some (record h {
        debugger = release h.debugger file;
        event = assign h.event file none;
        fds = assign h.fds fd none;
        allocated = h.allocated - 1;
      })
unfolding close_fd rwmem_bp_release
close_empty h fd file e n =
    ap (release_data (set_fd h fd none) file) e
    ∙ ap
        (λ (o : Option ℕ). some (record h {
          debugger = release h.debugger file;
          event = assign h.event file none;
          fds = assign h.fds fd none;
          breakpoints = unregister h.breakpoints o;
          allocated = h.allocated - 1;
        }))
        n

module _ (asked : Asked) (h : Holdings) (fresh : IsFresh asked h) (task : ℕ)
    (virt_addr len type : ℕ) where
  -- The references to the task, held once and given back.
  put_held : put_task_struct (hold_task h task) task ≡ h
  put_held = ap (λ (r : ℕ → ℕ). record h { references = r }) (fun_ext (λ j. ground arith))

  -- All that a new file took is given back.
  given_back :
      (fd file : ℕ) (d : PrivateData) (e : Errno)
      → h.fds fd ≡ none
      → IsUnused h.debugger file × (h.event file ≡ none)
      → Path
          (Option (Result ℕ × Holdings))
          (some (
            err e,
            record h {
              debugger = release (set_file h.debugger file d) file;
              event = assign (assign h.event file none) file none;
              fds = assign (assign (assign h.fds fd (some none)) fd (some (some file))) fd none;
              references = (put_task_struct (hold_task h task) task).references;
              allocated = h.allocated + 1 - 1;
            },
          ))
          (some (err e, h))
  given_back fd file d e free (unused, no_event) =
      let files = release_new h.debugger file d unused in
      let events = assign-assign h.event file none none ∙ assign_same h.event file none no_event in
      let fds =
        assign-assign (assign h.fds fd (some none)) fd none (some (some file))
        ∙ assign_back h.fds fd none (some none) free in
      let held = ap (λ (x : Holdings). x.references) put_held in
      let count : h.allocated + 1 - 1 ≡ h.allocated = omega arith in
      λ i. some (
        err e,
        record h {
          debugger = files i;
          event = events i;
          fds = fds i;
          references = held i;
          allocated = count i;
        },
      )

  pub no_fd :
      (e : Errno)
      → asked.get_unused_fd_flags ≡ err e
      → add_for_task asked (hold_task h task) task virt_addr len type ≡ some (err e, h)
  unfolding add_for_task
  no_fd e n = rw (n, add_for_task) (ap (λ (x : Holdings). some (err e, x)) put_held)

  module _ (fd : ℕ) (a : asked.get_unused_fd_flags ≡ ok fd) where
    abbrev reserved : Holdings
    reserved = set_fd (hold_task h task) fd (some none)

    with_fd :
        add_for_task asked (hold_task h task) task virt_addr len type
        ≡ with_file task virt_addr len type fd asked (create_rwmem_bp_file asked reserved)
    unfolding add_for_task create_rwmem_bp_file
    with_fd = rw (a, add_for_task) refl

    pub no_file :
        (e : Errno)
        → asked.anon_inode_getfile ≡ err e
        → add_for_task asked (hold_task h task) task virt_addr len type ≡ some (err e, leaked h)
    no_file e n =
        with_fd
        ∙ ap (with_file task virt_addr len type fd asked) (create_err asked reserved e n)
        ∙ ap₂
            (λ (r : ℕ → ℕ) (f : ℕ → Option (Option ℕ)).
              some (err e, record h { references = r; fds = f; allocated = h.allocated + 1 }))
            (fun_ext (λ j. ground arith)) (assign_back h.fds fd none (some none) (fresh.fd fd a))

    module _ (file : ℕ) (b : asked.anon_inode_getfile ≡ ok file) where
      abbrev installed : Holdings
      installed = set_fd (created reserved file) fd (some (some file))

      abbrev with_attr : ℕ → Holdings
      with_attr event = record installed {
        breakpoints =
            assign installed.breakpoints event (some (attr_of task virt_addr len type file));
      }

      with_new :
          (r : Result ℕ)
          → asked.perf_event_create_kernel_counter (attr_of task virt_addr len type file) ≡ r
          → add_for_task asked (hold_task h task) task virt_addr len type
            ≡ with_event task virt_addr len type fd file installed r
      with_new r c =
          with_fd
          ∙ ap (with_file task virt_addr len type fd asked) (create_ok asked reserved file b)
          ∙ ap (with_event task virt_addr len type fd file installed) c

      pub no_event :
          (e : Errno)
          → asked.perf_event_create_kernel_counter (attr_of task virt_addr len type file) ≡ err e
          → add_for_task asked (hold_task h task) task virt_addr len type ≡ some (err e, h)
      no_event e n =
          with_new (err e) n
          ∙ ap (answer (err e)) (
              close_empty (put_task_struct installed task) fd file
                (here h.debugger.files file (some (new_file 0))) (here h.event file none))
          ∙ given_back fd file (new_file 0) e (fresh.fd fd a) (fresh.file file b)

      pub some_event :
          (event : ℕ)
          → asked.perf_event_create_kernel_counter (attr_of task virt_addr len type file) ≡ ok event
          → add_for_task asked (hold_task h task) task virt_addr len type
            ≡ some (ok fd, made h fd file event task (attr_of task virt_addr len type file))
      some_event event c =
          with_new (ok event) c
          ∙ ap
              (λ (d : Option PrivateData).
                answer (ok fd) (set_data (with_attr event) file event task d))
              (here h.debugger.files file (some (new_file 0)))
          ∙ λ i. some (
            ok fd,
            record (made h fd file event task (attr_of task virt_addr len type file)) {
              debugger = record h.debugger {
                files =
                    assign-assign h.debugger.files file (some (new_file task)) (some (new_file 0))
                      i;
              };
              event = assign-assign h.event file (some event) none i;
              fds = assign-assign h.fds fd (some (some file)) (some none) i;
            },
          )
