-- ===== src/Kernel/Transfer/Refines.antt =====
-- The loops of rwMem/sys.c on page tables and memory, beside the list of pieces.
use rw_mem.Common.{
  ℕ, zero, suc, ◌+◌, ◌-◌, ◌%◌, ◌^◌, ◌≤◌, ◌≡◌, refl, sym, ap, ap₂, ◌∙◌, ◌⊎◌, inl, inr, ◌==◌, Bool,
  true, false, not, none, some, List, [], ◌∷◌, ◌++◌, ltb, min, length, take, drop, arith,
  Bool-cases, ltb→lt, append_assoc, take-append_eq, drop-append_eq, drop-drop, length-drop,
}
use rw_mem.Kernel.Memory.{PageTables, Piece, size_inside_page, reaches, copy_loop}
use rw_mem.Kernel.Memory.Pieces.{size_inside_page_bounds}
use rw_mem.Kernel.Paging.{Arch, Ptes, is_pte_can_read, change_pte_read_status}
use rw_mem.Kernel.Physical.{read_ram_physical_addr}
use rw_mem.Kernel.Physical.Copies.{got, length-got, read_ram_within}
use rw_mem.Kernel.Transfer.{
  Kernel, get_proc_phy_addr, check_proc_map_can_read, open_read, close_read, read_loop,
}

-- What the loop of `rwmem_read` asks of the entries, as questions about addresses.
abbrev pub read_tables : Kernel → Ptes → PageTables
read_tables k ptes = record {
  find_get_pid = k.tasks.find_get_pid;
  check_proc_map = check_proc_map_can_read k;
  get_proc_phy_addr = λ pid a. (get_proc_phy_addr k ptes pid a).0;
  is_pte_allowing = λ pid a. is_pte_can_read k.arch ptes (get_proc_phy_addr k ptes pid a).1;
  change_pte_status = λ pid a. not ((get_proc_phy_addr k ptes pid a).1 == 0);
}

-- What the pieces put over a buffer, one after the other: their bytes, or, where a copy fails, what the
-- buffer has there.
abbrev pub contents : Kernel → (ℕ → ℕ) → List ℕ → List Piece → List ℕ
contents k ram buf [] = []
contents k ram buf (p ∷ ps) =
    got k.ram k.total_memory ram p.phy_addr p.size buf ++ contents k ram (drop p.size buf) ps

abbrev pub sizes : List Piece → ℕ
sizes [] = 0
sizes (p ∷ ps) = p.size + sizes ps

-- Reading leaves the entries as they are.
module _ (k : Kernel) (ptes : Ptes) (pid at : ℕ) (force : Bool) where
  abbrev Goes : Type 0
  Goes =
      (reaches (read_tables k ptes) pid at force ≡ true)
      × (((get_proc_phy_addr k ptes pid at).0 == 0) ≡ false)
      × (open_read k.arch ptes (get_proc_phy_addr k ptes pid at).1 force ≡ some ptes)

  abbrev Stops : Type 0
  Stops =
      (reaches (read_tables k ptes) pid at force ≡ false)
      × ((((get_proc_phy_addr k ptes pid at).0 == 0) ≡ true)
          ⊎ ((((get_proc_phy_addr k ptes pid at).0 == 0) ≡ false)
              × (open_read k.arch ptes (get_proc_phy_addr k ptes pid at).1 force ≡ none)))

  open_read-cases : Goes ⊎ Stops
  unfolding reaches open_read change_pte_read_status
  open_read-cases =
      let (phy_addr, pte) = get_proc_phy_addr k ptes pid at in
      elim (Bool-cases (phy_addr == 0)) [
        | inl z ↦ inr (ground arith, inl z)
        | inr n ↦ elim (Bool-cases (is_pte_can_read k.arch ptes pte)) [
          | inl can ↦ inl (ground arith, n, ground arith)
          | inr cannot ↦ elim (Bool-cases force) [
            | inr f ↦ inr (ground arith, inr (n, ground arith))
            | inl f ↦ elim (Bool-cases (pte == 0)) [
              | inl nil ↦ inr (ground arith, inr (n, ground arith))
              | inr some_pte ↦ inl (ground arith, n, ground arith)
            ]
          ]
        ]
      ]

close_read-same :
    (arch : Arch) (old force : Bool) (ptes : Ptes) (pte : ℕ)
    → close_read arch old ptes pte force ≡ ptes
unfolding close_read change_pte_read_status
close_read-same arch old force ptes pte = ground arith

module _ (k : Kernel) (pid address : ℕ) (force : Bool) (size : ℕ) (ram : ℕ → ℕ) (ptes : Ptes) where
  abbrev at : ℕ → ℕ
  at done = (address + done) % 2 ^ 64

  abbrev phy : ℕ → ℕ
  phy done = (get_proc_phy_addr k ptes pid (at done)).0

  abbrev pfn_sz : ℕ → ℕ
  pfn_sz done = size_inside_page (phy done) (min 4096 (size - done))

  abbrev pieces : ℕ → ℕ → ℕ × List Piece
  pieces fuel done = copy_loop (read_tables k ptes) pid address force size fuel done

  abbrev run : ℕ → ℕ → List ℕ → ℕ × Ptes × List ℕ
  run fuel done buf = read_loop k pid address force size ram fuel done ptes buf

  -- A round's bytes, and what the rounds after it leave of the memory behind them.
  abbrev pasted : ℕ → ℕ → List ℕ → List ℕ → ℕ × Ptes × List ℕ
  pasted fuel done bytes tail = let r = run fuel done tail in (r.0, r.1, bytes ++ r.2)

  read_loop_past :
      (fuel done : ℕ) (buf : List ℕ)
      → ltb done size ≡ false
      → run (suc fuel) done buf ≡ (done, ptes, buf)
  unfolding read_loop
  read_loop_past fuel done buf n = rw (n, read_loop) refl

  read_loop_stops :
      (fuel done : ℕ) (buf : List ℕ)
      → ltb done size ≡ true
      → Stops k ptes pid (at done) force
      → run (suc fuel) done buf ≡ (done, ptes, buf)
  unfolding read_loop
  read_loop_stops fuel done buf y (r, inl z) = rw (y, z, read_loop) refl
  read_loop_stops fuel done buf y (r, inr (z, n)) = rw (y, z, n, read_loop) refl

  read_loop_goes :
      (fuel done : ℕ) (buf : List ℕ)
      → ltb done size ≡ true
      → Goes k ptes pid (at done) force
      → let buf' =
          (read_ram_physical_addr k.ram k.total_memory ram (phy done) (pfn_sz done) buf).1 in
        let r = run fuel (done + pfn_sz done) (drop (pfn_sz done) buf') in
        run (suc fuel) done buf ≡ (r.0, r.1, take (pfn_sz done) buf' ++ r.2)
  unfolding read_loop
  read_loop_goes fuel done buf y (r, z, e) = rw (y, z, e, close_read-same, read_loop) refl

  -- The loop copies the pieces, and leaves the entries and the memory behind them.
  abbrev Refines : ℕ → ℕ → List ℕ → Type 0
  Refines fuel done buf = run fuel done buf ≡ (
    (pieces fuel done).0,
    ptes,
    contents k ram buf (pieces fuel done).1 ++ drop (sizes (pieces fuel done).1) buf,
  )

  pub read_loop-copy_loop :
      (fuel done : ℕ) (buf : List ℕ) → size - done ≤ length buf → Refines fuel done buf
  unfolding copy_loop
  read_loop-copy_loop zero done buf room = unfold read_loop in refl
  read_loop-copy_loop (suc fuel) done buf room = elim (Bool-cases (ltb done size)) [
    | inr n ↦ rw (n, copy_loop) (read_loop_past fuel done buf n)
    | inl y ↦ elim (open_read-cases k ptes pid (at done) force) [
      | inr stops ↦ rw (y, stops.0, copy_loop) (read_loop_stops fuel done buf y stops)
      | inl goes ↦
          let n = pfn_sz done in
          let bytes = got k.ram k.total_memory ram (phy done) n buf in
          let (some_byte, within, inside) =
            size_inside_page_bounds (phy done) (min 4096 (size - done))
              (omega (arith, ltb→lt done size y)) in
          let copied =
            read_ram_within k.ram k.total_memory (phy done) n buf some_byte inside (omega arith)
              ram in
          let later =
            read_loop-copy_loop fuel (done + n) (drop n buf) (omega (arith, length-drop n buf)) in
          let tail = drop n buf in
          let cut =
            sym (
              length-got k.ram k.total_memory (phy done) n buf some_byte inside (omega arith)
                ram) in
          let (total, rest) = pieces fuel (done + n) in
          rw (y, goes.0, copy_loop)
            (read_loop_goes fuel done buf y goes
              ∙ ap (λ (b : List ℕ). pasted fuel (done + n) (take n b) (drop n b)) copied
              ∙ ap₂ (pasted fuel (done + n)) (take-append_eq n bytes tail cut)
                  (drop-append_eq n bytes tail cut)
              ∙ ap (λ (r : ℕ × Ptes × List ℕ). (r.0, r.1, bytes ++ r.2)) later
              ∙ ap (λ (l : List ℕ). (total, ptes, l))
                  (sym (append_assoc bytes (contents k ram tail rest) (drop (sizes rest) tail))
                    ∙ ap (λ (l : List ℕ). (bytes ++ contents k ram tail rest) ++ l)
                        (drop-drop (sizes rest) n buf)))
    ]
  ]
