-- ===== src/Kernel/AddBp/Branches.antt =====
-- IOCTL_ADD_BP of rwMem/sys.c on every branch, and the end of the file that it makes.
use rw_mem.Common.{
  ℕ, ◌≤◌, ◌≡◌, refl, sym, subst, ◌⊎◌, inl, inr, true, false, Option, some, List, ltb, length, take,
  drop, load, get_or, Bool-cases, Option-cases, ltb_ge,
}
use rw_mem.Common.Result.{Errno, Result, ok, err, einval, efault, Result-cases}
use rw_mem.Kernel.AddBp.{Asked, Holdings, hold_task, attr_of, add_for_task, is_len, add_bp}
use rw_mem.Kernel.AddBp.Laws.{IsFresh, made, leaked, no_fd, no_file, no_event, some_event}

module _ (asked : Asked) (h : Holdings) where
  -- The breakpoint is made: its descriptor is returned, and all that is taken for it is `made`.
  abbrev pub IsMade : ℕ → ℕ → ℕ → ℕ → ℕ → ℕ → Option (Result ℕ × Holdings) → Type 0
  IsMade task virt_addr len type fd file r =
      (event : ℕ) × (r
        ≡ some (ok fd, made h fd file event task (attr_of task virt_addr len type file)))
      × (asked.get_unused_fd_flags ≡ ok fd)
      × (asked.anon_inode_getfile ≡ ok file)
      × (asked.perf_event_create_kernel_counter (attr_of task virt_addr len type file) ≡ ok event)

  abbrev pub Adds : ℕ → ℕ → ℕ → ℕ → Option (Result ℕ × Holdings) → Type 0
  Adds task virt_addr len type r =
      ((e : Errno) × (r ≡ some (err e, h)))
      ⊎ ((e : Errno) × (asked.anon_inode_getfile ≡ err e) × (r ≡ some (err e, leaked h)))
      ⊎ ((fd : ℕ) × (file : ℕ) × IsMade task virt_addr len type fd file r)

  -- The request on every branch, with its parameters.
  abbrev pub AddsBp : List ℕ → Option (Result ℕ × Holdings) → Type 0
  AddsBp mem r =
      ((e : Errno) × (r ≡ some (err e, h)))
      ⊎ ((e : Errno) × (asked.anon_inode_getfile ≡ err e) × (r ≡ some (err e, leaked h)))
      ⊎ ((task : ℕ) × (fd : ℕ) × (file : ℕ) × (get_or mem 4 0 ≤ 4)
          × (is_len (get_or mem 5 0) ≡ true)
          × (asked.get_pid_task (load (take 4 mem)) ≡ some task)
          × IsMade task (load (take 8 (drop 8 mem))) (get_or mem 5 0) (get_or mem 4 0) fd file r)

module _ (asked : Asked) (h : Holdings) (fresh : IsFresh asked h) where
  add_for_task-Adds :
      (task virt_addr len type : ℕ)
      → Adds asked h task virt_addr len type
          (add_for_task asked (hold_task h task) task virt_addr len type)
  add_for_task-Adds task virt_addr len type = elim (Result-cases asked.get_unused_fd_flags) [
    | inl (e, n) ↦ inl (e, no_fd asked h fresh task virt_addr len type e n)
    | inr (fd, a) ↦ elim (Result-cases asked.anon_inode_getfile) [
      | inl (e, n) ↦ inr (inl (e, n, no_file asked h fresh task virt_addr len type fd a e n))
      | inr (file, b) ↦
          elim (Result-cases
            (asked.perf_event_create_kernel_counter (attr_of task virt_addr len type file))) [
              | inl (e, n) ↦ inl (e, no_event asked h fresh task virt_addr len type fd a file b e n)
              | inr (event, c) ↦ inr (
                  inr (
                    fd,
                    file,
                    (
                      event,
                      some_event asked h fresh task virt_addr len type fd a file b event c,
                      a,
                      b,
                      c,
                    ),
                  ))
            ]
    ]
  ]

  accepted-AddsBp :
      (mem : List ℕ) (task : ℕ)
      → ltb 4 (get_or mem 4 0) ≡ false
      → is_len (get_or mem 5 0) ≡ true
      → asked.get_pid_task (load (take 4 mem)) ≡ some task
      → AddsBp asked h mem (
          add_for_task asked
            (hold_task h task)
            task
            (load (take 8 (drop 8 mem)))
            (get_or mem 5 0)
            (get_or mem 4 0))
  accepted-AddsBp mem task type len alive =
      elim (add_for_task-Adds task (load (take 8 (drop 8 mem))) (get_or mem 5 0) (get_or mem 4 0)) [
        | inl failed ↦ inl failed
        | inr (inl no_inode) ↦ inr (inl no_inode)
        | inr (inr (fd, file, m)) ↦
            inr (inr (task, fd, file, ltb_ge 4 (get_or mem 4 0) type, len, alive, m))
      ]

  goes :
      (mem : List ℕ) (task : ℕ)
      → ltb (length mem) 16 ≡ false
      → ltb 4 (get_or mem 4 0) ≡ false
      → is_len (get_or mem 5 0) ≡ true
      → asked.find_get_pid (load (take 4 mem)) ≡ true
      → asked.get_pid_task (load (take 4 mem)) ≡ some task
      → add_bp asked h mem
        ≡ add_for_task asked
            (hold_task h task)
            task
            (load (take 8 (drop 8 mem)))
            (get_or mem 5 0)
            (get_or mem 4 0)
  unfolding add_bp
  goes mem task long type len found alive = rw (long, type, len, found, add_bp, alive) refl

  -- Where what the kernel gives is not in use: IOCTL_ADD_BP never uses data that are gone. A call that returns an error changes nothing of
  -- what is held, but where `anon_inode_getfile` fails the private data stay allocated. A call that
  -- returns a descriptor has a type up to 4, a length of 1, 2, 4 or 8 and a process's task, and what is
  -- held besides is `made`: the descriptor with a file for the task, the task once more, and the event.
  pub add_bp_lem : (mem : List ℕ) → AddsBp asked h mem (add_bp asked h mem)
  unfolding add_bp
  add_bp_lem mem = elim (Bool-cases (ltb (length mem) 16)) [
    | inl y ↦ inl (efault, rw (y, add_bp) refl)
    | inr long ↦ elim (Bool-cases (ltb 4 (get_or mem 4 0))) [
      | inl y ↦ inl (einval, rw (long, y, add_bp) refl)
      | inr type ↦ elim (Bool-cases (is_len (get_or mem 5 0))) [
        | inr n ↦ inl (einval, rw (long, type, n, add_bp) refl)
        | inl len ↦ elim (Bool-cases (asked.find_get_pid (load (take 4 mem)))) [
          | inr n ↦ inl (einval, rw (long, type, len, n, add_bp) refl)
          | inl found ↦ elim (Option-cases (asked.get_pid_task (load (take 4 mem)))) [
            | inl n ↦ inl (einval, rw (long, type, len, found, n, add_bp) refl)
            | inr (task, alive) ↦
                subst (AddsBp asked h mem) (sym (goes mem task long type len found alive))
                  (accepted-AddsBp mem task type len alive)
          ]
        ]
      ]
    ]
  ]
