-- ===== src/Kernel/Transfer/Bytes.antt =====
-- What rwmem_read of rwMem/sys.c leaves in the caller's buffer.
use rw_mem.Common.{
  ℕ, ◌+◌, ◌-◌, ◌%◌, ◌^◌, ◌≤◌, ◌<◌, ◌≡◌, ◌≢◌, refl, sym, ap, subst, ◌∙◌, inl, inr, ◌==◌, Bool, true,
  false, none, some, List, [], ◌∷◌, ◌++◌, ltb, length, length-append, take, drop, load, get_or,
  arith, Bool-cases, Option-cases, ltb→lt, ltb_ge, get_or-append_lt, get_or-append_ge, get_or-take,
  take-take, drop-take, get_or-drop, length-drop, ◌⊎◌, ltb-false,
}
use rw_mem.Common.Result.{Result, ok}
use rw_mem.Kernel.Memory.{PageTables, Piece, reaches, serve, transfer}
use rw_mem.Kernel.Memory.Pieces.{AreJoined}
use rw_mem.Kernel.Paging.{Ptes, get_task_proc_phy_addr}
use rw_mem.Kernel.Paging.Laws.{IsPaged, get_task_proc_phy_addr-page, get_task_proc_phy_addr-offset}
use rw_mem.Kernel.Physical.Copies.{is_copied, got, length-got, get_or-bytes_at}
use rw_mem.Kernel.Transfer.{
  Kernel, get_proc_phy_addr, check_proc_map_can_read, read_request, rwmem_read,
}
use rw_mem.Kernel.Transfer.Refines.{read_tables, contents, sizes, read_loop-copy_loop}

abbrev zeros : ℕ
zeros = 0

module _ (k : Kernel) (ptes : Ptes) (pid : ℕ) where
  -- Where the process's byte lies that is so far behind an address.
  abbrev pub place : ℕ → ℕ → ℕ
  place address i = (get_proc_phy_addr k ptes pid ((address + i) % 2 ^ 64)).0

  without_task : (a : ℕ) → k.tasks.pid_task pid ≡ none → get_proc_phy_addr k ptes pid a ≡ (0, 0)
  unfolding get_proc_phy_addr
  without_task a n = rw (n, get_proc_phy_addr) refl

  with_task :
      (task a : ℕ)
      → k.tasks.pid_task pid ≡ some task
      → get_proc_phy_addr k ptes pid a ≡ get_task_proc_phy_addr k.arch ptes (some task) a
  unfolding get_proc_phy_addr
  with_task task a t = rw (t, get_proc_phy_addr) refl

pub length-contents :
    (k : Kernel) (ram : ℕ → ℕ) (buf : List ℕ) (tables : PageTables) (pid address from to : ℕ)
    (force : Bool) (ps : List Piece)
    → AreJoined tables pid address force from to ps
    → sizes ps ≤ length buf
    → length (contents k ram buf ps) ≡ sizes ps
length-contents k ram buf tables pid address from to force [] joined room = refl
length-contents k ram buf tables pid address from to force (p ∷ ps)
      (offset, some_byte, inside, here, reached, joined) room =
    omega (
      arith,
      length-append (got k.ram k.total_memory ram p.phy_addr p.size buf)
          (contents k ram (drop p.size buf) ps),
      length-got k.ram k.total_memory p.phy_addr p.size buf some_byte inside (omega arith) ram,
      length-contents k ram (drop p.size buf) tables pid address (from + p.size) to force ps joined
          (omega (arith, length-drop p.size buf)),
    )

-- Where a byte that is so far behind the address comes from: from a piece around it, within a page,
-- that is copied, and then it is the process's byte; or from one whose copy fails, and then it is what
-- stood there.
module _ (k : Kernel) (ptes : Ptes) (pid address : ℕ) (ram : ℕ → ℕ) where
  abbrev pub Comes : ℕ → ℕ → ℕ → Type 0
  Comes i old byte =
      (start : ℕ) × (n : ℕ) × (start ≤ i)
      × (i < start + n)
      × (place k ptes pid address start % 4096 + n ≤ 4096)
      × (((is_copied k.ram k.total_memory (place k ptes pid address start) n ≡ true)
            × (byte ≡ ram (place k ptes pid address i)))
          ⊎ ((is_copied k.ram k.total_memory (place k ptes pid address start) n ≡ false)
              × (byte ≡ old)))

  pub Comes-same :
      (i j old old' byte byte' : ℕ)
      → i ≡ j
      → old ≡ old'
      → byte' ≡ byte
      → Comes i old byte
      → Comes j old' byte'
  Comes-same i j old old' byte byte' at o b c =
      subst (λ (x : ℕ). Comes j old' x) (sym b)
        (subst (λ (x : ℕ). Comes j x byte) o (subst (λ (x : ℕ). Comes x old byte) at c))

module _ (k : Kernel) (paged : IsPaged k.arch) (ptes : Ptes) (pid address : ℕ) (force : Bool)
    (ram : ℕ → ℕ) where
  abbrev spot : ℕ → ℕ
  spot i = place k ptes pid address i

  abbrev AreJoinedHere : ℕ → ℕ → List Piece → Type 0
  AreJoinedHere = AreJoined (read_tables k ptes) pid address force

  reaches-place :
      (from : ℕ)
      → reaches (read_tables k ptes) pid ((address + from) % 2 ^ 64) force ≡ true
      → spot from ≢ 0
  unfolding reaches
  reaches-place from r z = ground arith

  pub place-page :
      (from size j : ℕ)
      → spot from ≢ 0
      → spot from % 4096 + size ≤ 4096
      → j < size
      → spot (from + j) ≡ spot from + j
  place-page from size j some_page inside h =
      let a = (address + from) % 2 ^ 64 in
      elim (Option-cases (k.tasks.pid_task pid)) [
        | inl n ↦ absurd (some_page (ap (λ (r : ℕ × ℕ). r.0) (without_task k ptes pid a n)))
        | inr (task, t) ↦
            let found = ap (λ (r : ℕ × ℕ). r.0) (with_task k ptes pid task a t) in
            let some_page' : (get_task_proc_phy_addr k.arch ptes (some task) a).0 ≢ 0 =
              λ z. some_page (found ∙ z) in
            let offset = get_task_proc_phy_addr-offset k.arch paged ptes (some task) a some_page' in
            let low : a % 4096 + j < 4096 = omega (arith, offset, found) in
            ap (λ (b : ℕ). (get_proc_phy_addr k ptes pid b).0) {x = (address + (from + j)) % 2 ^ 64}
              {y = a + j} (omega (arith, low))
            ∙ ap (λ (r : ℕ × ℕ). r.0) (with_task k ptes pid task (a + j) t)
            ∙ get_task_proc_phy_addr-page k.arch paged ptes (some task) a j low some_page'
            ∙ ap (λ (b : ℕ). b + j) (sym found)
      ]

  -- The bytes of the first piece.
  got-Comes :
      (from i : ℕ) (p : Piece) (buf : List ℕ)
      → 0 < p.size
      → p.phy_addr % 4096 + p.size ≤ 4096
      → spot from ≡ p.phy_addr
      → reaches (read_tables k ptes) pid ((address + from) % 2 ^ 64) force ≡ true
      → i < p.size
      → Comes k ptes pid address ram
          (from + i)
          (get_or buf i 0)
          (get_or (got k.ram k.total_memory ram p.phy_addr p.size buf) i 0)
  got-Comes from i p buf some_byte inside here reached h =
      let page = subst (λ (a : ℕ). a % 4096 + p.size ≤ 4096) (sym here) inside in
      (
        from,
        p.size,
        omega arith,
        omega arith,
        page,
        elim (Bool-cases (is_copied k.ram k.total_memory p.phy_addr p.size)) [
          | inl y ↦ inl (
            ap (λ (a : ℕ). is_copied k.ram k.total_memory a p.size) here ∙ y,
            rw y (
                get_or-bytes_at ram p.phy_addr p.size i zeros h
                ∙ ap ram (
                    omega
                      (arith, here, place-page from p.size i (reaches-place from reached) page h))),
          )
          | inr n ↦ inr (
            ap (λ (a : ℕ). is_copied k.ram k.total_memory a p.size) here ∙ n,
            rw n (get_or-take p.size buf i zeros h),
          )
        ],
      )

  pub contents-place :
      (from to : ℕ) (ps : List Piece) (buf : List ℕ)
      → AreJoinedHere from to ps
      → sizes ps ≤ length buf
      → (i : ℕ) → i < sizes ps
      → Comes k ptes pid address ram
          (from + i)
          (get_or buf i 0)
          (get_or (contents k ram buf ps) i 0)
  contents-place from to [] buf joined room i h = absurd (omega arith)
  contents-place from to (p ∷ ps) buf (offset, some_byte, inside, here, reached, joined) room i h =
      let first = got k.ram k.total_memory ram p.phy_addr p.size buf in
      let rest = drop p.size buf in
      let len =
        length-got k.ram k.total_memory p.phy_addr p.size buf some_byte inside (omega arith) ram in
      elim (Bool-cases (ltb i p.size)) [
        | inl y ↦
            Comes-same k ptes pid address ram (from + i) (from + i) (get_or buf i 0)
              (get_or buf i 0) (get_or first i 0) (get_or (first ++ contents k ram rest ps) i 0)
              refl refl
              (get_or-append_lt first (contents k ram rest ps) i zeros
                (omega (arith, len, ltb→lt i p.size y)))
              (got-Comes from i p buf some_byte inside here reached (ltb→lt i p.size y))
        | inr n ↦
            let high = ltb_ge i p.size n in
            let j = i - p.size in
            Comes-same k ptes pid address ram (from + p.size + j) (from + i) (get_or rest j 0)
              (get_or buf i 0) (get_or (contents k ram rest ps) j 0)
              (get_or (first ++ contents k ram rest ps) i 0) (omega (arith, high))
              (get_or-drop p.size buf j zeros
                ∙ ap (λ (x : ℕ). get_or buf x 0) {x = p.size + j} {y = i} (omega (arith, high)))
              (get_or-append_ge first (contents k ram rest ps) i zeros (omega (arith, len, high))
                ∙ ap (λ (x : ℕ). get_or (contents k ram rest ps) x 0) {x = i - length first} {y = j}
                    (omega (arith, len)))
              (contents-place (from + p.size) to ps rest joined
                (omega (arith, length-drop p.size buf)) j (omega (arith, high)))
      ]

  pub joined-sizes :
      (from to : ℕ) (ps : List Piece) → AreJoinedHere from to ps → from + sizes ps ≡ to
  joined-sizes from to [] joined = omega arith
  joined-sizes from to (p ∷ ps) (offset, some_byte, inside, here, reached, joined) =
      omega (arith, joined-sizes (from + p.size) to ps joined)

abbrev pub pasted :
    Kernel → (ℕ → ℕ) → Ptes → List ℕ → Result ℕ × List Piece → Result ℕ × Ptes × List ℕ
pasted k ram ptes buf (r, ps) = (r, ptes, contents k ram buf ps ++ drop (sizes ps) buf)

module _ (k : Kernel) (ptes : Ptes) (ram : ℕ → ℕ) (buf : List ℕ) (size : ℕ)
    (room : size ≤ length buf) where
  pub read_request-serve :
      (pid address : ℕ) (force : Bool)
      → read_request k ram ptes pid address force buf size
        ≡ pasted k ram ptes buf (serve (read_tables k ptes) pid address force size)
  unfolding read_request serve
  read_request-serve pid address force = elim (Bool-cases (k.tasks.find_get_pid pid)) [
    | inr n ↦ rw (n, serve, read_request) refl
    | inl y ↦ elim (Bool-cases force) [
      | inl f ↦
          rw (y, f, serve, read_request)
            (ap (λ (r : ℕ × Ptes × List ℕ). (ok r.0, r.1, r.2))
              (read_loop-copy_loop k pid address true size ram ptes size 0 buf (omega arith)))
      | inr f ↦ elim (Bool-cases (check_proc_map_can_read k pid address size)) [
        | inr n ↦ rw (y, f, n, serve, read_request) refl
        | inl c ↦
            rw (y, f, c, serve, read_request)
              (ap (λ (r : ℕ × Ptes × List ℕ). (ok r.0, r.1, r.2))
                (read_loop-copy_loop k pid address false size ram ptes size 0 buf (omega arith)))
      ]
    ]
  ]

  transfer-take :
      (tables : PageTables)
      → transfer tables (some (take 17 buf)) size
        ≡ serve tables
            (load (take 8 buf) % 2 ^ 32)
            (load (take 8 (drop 8 buf)))
            (get_or buf 16 0 == 1)
            size
  unfolding transfer
  transfer-take tables =
      simp
        (
          take-take 8 17 buf (omega arith),
          drop-take 8 17 9 buf (omega arith),
          take-take 8 9 (drop 8 buf) (omega arith),
          get_or-take 17 buf 16 zeros (omega arith),
        )
        refl

  -- Where the buffer has the size and the 17 bytes, `rwmem_read` returns what `transfer` returns for these
  -- bytes, leaves the entries as they are, and puts the contents of the pieces over the start of the
  -- buffer: of each piece its bytes of physical memory if its range passes the check and the kernel
  -- buffers, maps and reads it, and else what the buffer has there, which is counted all the same.
  pub rwmem_read-transfer :
      17 ≤ length buf
      → rwmem_read k ram ptes buf size
        ≡ pasted k ram ptes buf (transfer (read_tables k ptes) (some (take 17 buf)) size)
  unfolding rwmem_read
  rwmem_read-transfer long = rw (ltb-false (length buf) 17 long) (
      read_request-serve (load (take 8 buf) % 2 ^ 32) (load (take 8 (drop 8 buf)))
        (get_or buf 16 0 == 1)
      ∙ ap (pasted k ram ptes buf) (sym (transfer-take (read_tables k ptes))))
