-- ===== src/Kernel/AddBp.antt =====
-- rwMem/sys.c and rwMem/bp.c: IOCTL_ADD_BP, which makes a breakpoint with its file, and the end of that
-- file.
--
-- What the kernel answers is an argument; a pointer is a number, 0 is NULL, and a task has the number
-- of its pointer. `private_data->event` is kept beside the other private data, which are the
-- debugger's. `close_fd` runs `rwmem_bp_release` at once; the kernel does so when the call returns.
pub mod Laws
pub mod Tag
pub mod Branches
pub mod Ends
use rw_mem.Common.{
  ℕ, zero, suc, ◌+◌, ◌-◌, ◌*◌, ◌^◌, ◌==◌, Bool, true, false, ◌||◌, not, Option, none, some, List,
  ltb, if◌then◌else◌, length, take, drop, load, get_or, bit_and, bit_or,
}
use rw_mem.Common.Result.{Result, ok, err, einval, efault}
use rw_mem.Kernel.Breakpoint.{PrivateData, Debugger, set_file, assign, release}

-- `file & ~((uint64_t)~((uint8_t)0xcb) << 56)`: the constant is `0xcbffffffffffffff`.
unfoldable pub callback_context : ℕ → ℕ
callback_context file = bit_and file (203 * 2 ^ 56 + (2 ^ 56 - 1))

-- `overflow_handler_context | ((uint64_t)0xff << 56)` of `bp_callback`.
unfoldable pub callback_file : ℕ → ℕ
callback_file context = bit_or context (255 * 2 ^ 56)

-- What is asked of `perf_event_create_kernel_counter`: the fields that are set of `attr`, the task, and
-- the context of `bp_callback`.
pub record Attr : Type 0 where
  pub exclude_kernel : Bool
  pub bp_addr : ℕ
  pub bp_len : ℕ
  pub bp_type : ℕ
  pub disabled : Bool
  pub task : ℕ
  pub context : ℕ

pub record Asked : Type 0 where
  pub find_get_pid : ℕ → Bool
  pub get_pid_task : ℕ → Option ℕ
  pub get_unused_fd_flags : Result ℕ
  pub anon_inode_getfile : Result ℕ
  pub perf_event_create_kernel_counter : Attr → Result ℕ

-- What the module holds: the files' data, a file's `event`, the descriptors of the caller (one that is
-- reserved has no file), how often a task is held, the events that are there, and how many private
-- data are allocated.
pub record Holdings : Type 0 where
  pub debugger : Debugger
  pub event : ℕ → Option ℕ
  pub fds : ℕ → Option (Option ℕ)
  pub references : ℕ → ℕ
  pub breakpoints : ℕ → Option Attr
  pub allocated : ℕ

abbrev pub hold_task : Holdings → ℕ → Holdings
hold_task h task = record h { references = assign h.references task (h.references task + 1) }

abbrev pub put_task_struct : Holdings → ℕ → Holdings
put_task_struct h task = record h { references = assign h.references task (h.references task - 1) }

-- A descriptor that is reserved, given a file, or free.
abbrev pub set_fd : Holdings → ℕ → Option (Option ℕ) → Holdings
set_fd h fd state = record h { fds = assign h.fds fd state }

-- `create_rwmem_bp_file`: the data are all zero.
unfoldable pub create_rwmem_bp_file : Asked → Holdings → Result ℕ × Holdings
create_rwmem_bp_file asked h = elim asked.anon_inode_getfile [
  | err e ↦ (err e, record h { allocated = h.allocated + 1 })
  | ok file ↦
      let private_data : PrivateData = record {
        stopped_flag = false;
        continue_flag = false;
        poll = false;
        target_task = 0;
      } in
      (
        ok file,
        record h {
          debugger = set_file h.debugger file private_data;
          event = assign h.event file none;
          allocated = h.allocated + 1;
        },
      )
]

abbrev pub unregister : (ℕ → Option Attr) → Option ℕ → ℕ → Option Attr
unregister breakpoints none = breakpoints
unregister breakpoints (some event) = assign breakpoints event none

abbrev pub put_target : Holdings → ℕ → Holdings
put_target h task = if task == 0 then h else put_task_struct h task

abbrev pub release_data : Holdings → ℕ → Option PrivateData → Option Holdings
release_data h file none = none
release_data h file (some private_data) = some (record (put_target h private_data.target_task) {
  debugger = release h.debugger file;
  event = assign h.event file none;
  breakpoints = unregister h.breakpoints (h.event file);
  allocated = h.allocated - 1;
})

-- `rwmem_bp_release` with what it gives back; `none` if the file's data are gone.
unfoldable pub rwmem_bp_release : Holdings → ℕ → Option Holdings
rwmem_bp_release h file = release_data h file (h.debugger.files file)

-- `close_fd` of a descriptor that the file has.
unfoldable pub close_fd : Holdings → ℕ → ℕ → Option Holdings
unfolding rwmem_bp_release
close_fd h fd file = rwmem_bp_release (set_fd h fd none) file

-- `private_data->event` and `private_data->target_task`
-- `private_data->event` and `private_data->target_task` are set.
abbrev pub set_data : Holdings → ℕ → ℕ → ℕ → Option PrivateData → Option Holdings
set_data h file event task none = none
set_data h file event task (some private_data) = some (record h {
  debugger = set_file h.debugger file (record private_data { target_task = task });
  event = assign h.event file (some event);
})

abbrev pub set_target : Holdings → ℕ → ℕ → ℕ → Option Holdings
set_target h file event task = set_data h file event task (h.debugger.files file)

abbrev pub answer : Result ℕ → Option Holdings → Option (Result ℕ × Holdings)
answer r none = none
answer r (some h) = some (r, h)

abbrev pub attr_of : ℕ → ℕ → ℕ → ℕ → ℕ → Attr
attr_of task virt_addr len type file = record {
  exclude_kernel = true;
  bp_addr = virt_addr;
  bp_len = len;
  bp_type = type;
  disabled = false;
  task = task;
  context = callback_context file;
}

module _ (task virt_addr len type fd : ℕ) where
  -- Behind the call of `perf_event_create_kernel_counter`, where the descriptor has the file.
  abbrev pub with_event : ℕ → Holdings → Result ℕ → Option (Result ℕ × Holdings)
  with_event file installed (err e) =
      answer (err e) (close_fd (put_task_struct installed task) fd file)
  with_event file installed (ok event) =
      let attr = attr_of task virt_addr len type file in
      let breakpoints = assign installed.breakpoints event (some attr) in
      answer (ok fd) (set_target (record installed { breakpoints = breakpoints }) file event task)

  -- Behind the call of `create_rwmem_bp_file`.
  abbrev pub with_file : Asked → Result ℕ × Holdings → Option (Result ℕ × Holdings)
  with_file asked (err e, made) = some (err e, set_fd (put_task_struct made task) fd none)
  with_file asked (ok file, made) =
      with_event file (set_fd made fd (some (some file)))
        (asked.perf_event_create_kernel_counter (attr_of task virt_addr len type file))

-- From `hw_breakpoint_init` on, where the task is held.
unfoldable pub add_for_task : Asked → Holdings → ℕ → ℕ → ℕ → ℕ → Option (Result ℕ × Holdings)
add_for_task asked h task virt_addr len type = elim asked.get_unused_fd_flags [
  | err e ↦ some (err e, put_task_struct h task)
  | ok fd ↦
      with_file task virt_addr len type fd asked
        (create_rwmem_bp_file asked (set_fd h fd (some none)))
]

abbrev pub is_len : ℕ → Bool
is_len len = (len == 1) || (len == 2) || (len == 4) || (len == 8)

-- IOCTL_ADD_BP: 16 bytes of parameters, of which two are padding; `none` stands for a use of data that
-- are gone.
unfoldable pub add_bp : Asked → Holdings → List ℕ → Option (Result ℕ × Holdings)
unfolding add_for_task
add_bp asked h mem =
    let pid = load (take 4 mem) in
    let type = get_or mem 4 0 in
    let len = get_or mem 5 0 in
    let virt_addr = load (take 8 (drop 8 mem)) in
    if ltb (length mem) 16
    then some (err efault, h)
    else if ltb 4 type
    then some (err einval, h)
    else if not (is_len len)
    then some (err einval, h)
    else if not (asked.find_get_pid pid)
    then some (err einval, h)
    else elim (asked.get_pid_task pid) [
      | none ↦ some (err einval, h)
      | some task ↦ add_for_task asked (hold_task h task) task virt_addr len type
    ]
