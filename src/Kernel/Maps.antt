-- ===== src/Kernel/Maps.antt =====
-- rwMem/proc_maps.h, and the two requests of rwMem/sys.c that list a process's memory areas.
--
-- The kernel's process table is an argument: what `find_get_pid`, `pid_task` and `get_task_mm` give
-- for a pid. User memory is the list of the bytes that are mapped from the buffer on; it may go on
-- past the size that the caller states. `x_copy_to_user` fails where the mapped memory ends; what a
-- failing copy leaves there is past every entry that is counted, and is not modelled.
pub mod Layout
use rw_mem.Common.{
  ℕ, zero, suc, ◌+◌, ◌-◌, ◌%◌, ◌^◌, Bool, true, false, ◌&&◌, Option, none, some, List, [], ◌∷◌,
  ◌++◌, ltb, leb, ◌==◌, if◌then◌else◌, length, take, drop, replicate, store, load,
}
use rw_mem.Common.Result.{Result, ok, err, einval, efault}

-- `vm_area_struct`: the bounds, four of the flags, and the path that `d_path` gives for its file.
pub record Vma : Type 0 where
  pub vm_start : ℕ
  pub vm_end : ℕ
  pub vm_read : Bool
  pub vm_write : Bool
  pub vm_exec : Bool
  pub vm_mayshare : Bool
  pub vm_file : Option (List ℕ)

-- `mm_struct`
pub record Mm : Type 0 where
  pub mmap : List Vma
  pub map_count : ℕ
  pub vdso : ℕ
  pub brk : ℕ
  pub start_brk : ℕ
  pub start_stack : ℕ

-- What is known of a pid: no such pid, a pid without a task, a task without memory, or its memory.
pub data Process : Type 0 where
  no_pid no_task no_mm : Process
  alive : Mm → Process

abbrev pub path_max : ℕ
path_max = 512

-- `is_stack`
unfoldable pub is_stack : Mm → Vma → Bool
is_stack mm v = leb v.vm_start mm.start_stack && leb mm.start_stack v.vm_end

abbrev pub vdso_name : List ℕ
vdso_name = b'[' ∷ b'v' ∷ b'd' ∷ b's' ∷ b'o' ∷ b']' ∷ []

abbrev pub heap_name : List ℕ
heap_name = b'[' ∷ b'h' ∷ b'e' ∷ b'a' ∷ b'p' ∷ b']' ∷ []

abbrev pub stack_name : List ℕ
stack_name = b'[' ∷ b's' ∷ b't' ∷ b'a' ∷ b'c' ∷ b'k' ∷ b']' ∷ []

-- The name that the loop puts into `new_path`. The tests of the room left compare an unsigned
-- number with 0, and always pass.
unfoldable pub area_name : Mm → Vma → List ℕ
unfolding is_stack
area_name mm v = elim v.vm_file [
  | some path ↦ take (path_max - 1) path
  | none ↦
      if v.vm_start == mm.vdso
      then vdso_name
      else if leb v.vm_start mm.brk && leb mm.start_brk v.vm_end
      then heap_name
      else if is_stack mm v
      then stack_name
      else []
]

abbrev pub flag : Bool → ℕ
flag true = 1
flag false = 0

-- `new_path` after `memset`: the name, and zeros up to its size.
abbrev pub padded : List ℕ → List ℕ
padded name = name ++ replicate (path_max - length name) 0

-- How much of `new_path` is copied.
abbrev pub copied : ℕ → ℕ
copied max_path_length = if ltb path_max max_path_length then path_max else max_path_length - 1

-- The four copies of an entry, in order, and whether each was made. The bytes are what stands from
-- `copy_pos` on once they are; what no copy touches, up to the next entry, stays as it was.
pub data Copy : Type 0 where
  stopped : List ℕ → Copy
  wrote : List ℕ → List ℕ → Copy

unfoldable pub copy_entry : Mm → Vma → ℕ → List ℕ → Copy
unfolding area_name
copy_entry mm v max_path_length mem =
    let start = store 8 v.vm_start in
    let bounds = start ++ store 8 v.vm_end in
    let flags = flag v.vm_read ∷ flag v.vm_write ∷ flag v.vm_exec ∷ flag v.vm_mayshare ∷ [] in
    let n = copied max_path_length in
    let path = take n (padded (area_name mm v)) in
    if ltb (length mem) 8
    then stopped mem
    else if ltb (length mem) 16
    then stopped (start ++ drop 8 mem)
    else if ltb (length mem) 20
    then stopped (bounds ++ drop 16 mem)
    else if ltb (length mem) (20 + n)
    then stopped ((bounds ++ flags) ++ drop 20 mem)
    else wrote (((bounds ++ flags) ++ path) ++ take (max_path_length - n) (drop (20 + n) mem))
        (drop (20 + max_path_length) mem)

-- The loop over the areas: the entries written, the memory from `copy_pos` on, and `have_pass`.
-- `room` is `end_pos - copy_pos`.
unfoldable pub maps_loop : Mm → List Vma → ℕ → ℕ → List ℕ → ℕ × List ℕ × Bool
maps_loop mm [] max_path_length room mem = (0, mem, false)
maps_loop mm (v ∷ vs) max_path_length room mem =
    if room == 0 then (0, mem, true) else elim (copy_entry mm v max_path_length mem) [
      | stopped mem' ↦ (0, mem', true)
      | wrote bytes rest ↦
          let (n, mem', pass) =
            maps_loop mm vs max_path_length (room - (20 + max_path_length)) rest in
          (suc n, bytes ++ mem', pass)
    ]

-- A negative `int` as the `uint64_t` that it is assigned to.
abbrev pub minus : ℕ → ℕ
minus n = 2 ^ 64 - n

-- `get_proc_maps_list` for a user buffer. The error returns are numbers, as the caller takes them.
unfoldable pub get_proc_maps_list : Process → ℕ → ℕ → List ℕ → ℕ × List ℕ × Bool
unfolding maps_loop
get_proc_maps_list (alive mm) max_path_length buf_size mem =
    if max_path_length == 0
    then (minus 1, mem, false)
    else maps_loop mm mm.mmap max_path_length buf_size mem
get_proc_maps_list no_mm max_path_length buf_size mem =
    if max_path_length == 0 then (minus 1, mem, false) else (minus 3, mem, false)
get_proc_maps_list no_task max_path_length buf_size mem =
    if max_path_length == 0 then (minus 1, mem, false) else (minus 2, mem, false)
get_proc_maps_list no_pid max_path_length buf_size mem =
    if max_path_length == 0 then (minus 1, mem, false) else (minus 2, mem, false)

-- `get_proc_map_count`
unfoldable pub get_proc_map_count : Process → ℕ
get_proc_map_count (alive mm) = mm.map_count
get_proc_map_count no_mm = 0
get_proc_map_count no_task = 0
get_proc_map_count no_pid = 0

abbrev pub pid_exists : Process → Bool
pid_exists no_pid = false
pid_exists no_task = true
pid_exists no_mm = true
pid_exists (alive mm) = true

-- IOCTL_GET_PROCESS_MAPS_COUNT: `find_get_pid` takes the low 32 bits of the argument.
unfoldable pub maps_count_ioctl : (ℕ → Process) → ℕ → Result ℕ
unfolding get_proc_map_count
maps_count_ioctl pids arg =
    let process = pids (arg % 2 ^ 32) in
    if pid_exists process then ok (get_proc_map_count process) else err einval

-- IOCTL_GET_PROCESS_MAPS_LIST: 24 bytes of parameters, replaced by the count and the entries. The room
-- ends at the buffer's address plus its size, which is below 2 ^ 64; a size below 8 puts the end before
-- the entries, and none is written.
unfoldable pub maps_list_ioctl : (ℕ → Process) → List ℕ → Result Bool × List ℕ
unfolding get_proc_maps_list
maps_list_ioctl pids mem =
    let pid = load (take 8 mem) % 2 ^ 32 in
    let name_len = load (take 8 (drop 8 mem)) in
    let buf_size = load (take 8 (drop 16 mem)) in
    let size = buf_size - 8 in
    let process = pids pid in
    let (count, rest, have_pass) = get_proc_maps_list process name_len size (drop 8 mem) in
    if ltb (length mem) 24
    then (err einval, mem)
    else if pid_exists process
    then (ok have_pass, store 8 count ++ rest)
    else (err einval, mem)
