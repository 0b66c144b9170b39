-- ===== src/Kernel/Transfer/Writes.antt =====
-- The loop of rwmem_write in rwMem/sys.c, beside the list of pieces.
use rw_mem.Common.{
  ℕ, zero, suc, ◌+◌, ◌-◌, ◌%◌, ◌^◌, ◌≤◌, ◌≡◌, refl, sym, ap, subst, ◌∙◌, inl, inr, ◌==◌, Bool, true,
  false, not, ◌&&◌, ◌||◌, none, some, List, [], ◌∷◌, ltb, min, length, drop, arith, Bool-cases,
  ltb→lt, length-drop,
}
use rw_mem.Kernel.Memory.{Piece, size_inside_page, reaches, copy_loop}
use rw_mem.Kernel.Memory.Pieces.{size_inside_page_bounds}
use rw_mem.Kernel.Paging.{Ptes, is_pte_can_write}
use rw_mem.Kernel.Physical.{write_ram_physical_addr}
use rw_mem.Kernel.Physical.Copies.{put, write_ram_within}
use rw_mem.Kernel.Transfer.{Kernel, get_proc_phy_addr, open_write, close_write, write_loop}
use rw_mem.Kernel.Transfer.Entries.{
  IsLawful, AreSame, AreSame-trans, write_tables, get_proc_phy_addr_same, is_pte_can_write_same,
  open_write-cases,
}

-- Physical memory once the data are put into the pieces, one after the other, where the copy is made.
abbrev pub written : Kernel → (ℕ → ℕ) → List ℕ → List Piece → ℕ → ℕ
written k ram input [] = ram
written k ram input (p ∷ ps) =
    written k (put k.ram k.total_memory ram p.phy_addr p.size input) (drop p.size input) ps

reaches-write :
    (k : Kernel) (ptes : Ptes) (pid at : ℕ) (force : Bool)
    → let (phy_addr, pte) = get_proc_phy_addr k ptes pid at in
      (phy_addr == 0) ≡ false
      → reaches (write_tables k ptes) pid at force
        ≡ (is_pte_can_write k.arch ptes pte || (force && not (pte == 0)))
unfolding reaches
reaches-write k ptes pid at force h = ground arith

reaches_null :
    (k : Kernel) (ptes : Ptes) (pid at : ℕ) (force : Bool)
    → ((get_proc_phy_addr k ptes pid at).0 == 0) ≡ true
    → reaches (write_tables k ptes) pid at force ≡ false
unfolding reaches
reaches_null k ptes pid at force h = ground arith

module _ (k : Kernel) (pid address : ℕ) (force : Bool) (size : ℕ) where
  abbrev run : Ptes → ℕ → ℕ → List ℕ → (ℕ → ℕ) → ℕ × Ptes × (ℕ → ℕ)
  run ptes fuel done input ram = write_loop k pid address force size fuel done ptes input ram

  -- One round, on the entries as they are then.
  module _ (ptes : Ptes) (fuel done : ℕ) (input : List ℕ) (ram : ℕ → ℕ) where
    abbrev at : ℕ
    at = (address + done) % 2 ^ 64

    abbrev phy : ℕ
    phy = (get_proc_phy_addr k ptes pid at).0

    abbrev pte : ℕ
    pte = (get_proc_phy_addr k ptes pid at).1

    abbrev pfn_sz : ℕ
    pfn_sz = size_inside_page phy (min 4096 (size - done))

    past : ltb done size ≡ false → run ptes (suc fuel) done input ram ≡ (done, ptes, ram)
    unfolding write_loop
    past n = rw (n, write_loop) refl

    stops_null :
        ltb done size ≡ true
        → (phy == 0) ≡ true
        → run ptes (suc fuel) done input ram ≡ (done, ptes, ram)
    unfolding write_loop
    stops_null y z = rw (y, z, write_loop) refl

    stops_refused :
        ltb done size ≡ true
        → (phy == 0) ≡ false
        → open_write k.arch ptes pte force ≡ none
        → run ptes (suc fuel) done input ram ≡ (done, ptes, ram)
    unfolding write_loop
    stops_refused y z n = rw (y, z, n, write_loop) refl

    goes :
        (q : Ptes)
        → ltb done size ≡ true
        → (phy == 0) ≡ false
        → open_write k.arch ptes pte force ≡ some q
        → run ptes (suc fuel) done input ram
          ≡ run
              (close_write k.arch (is_pte_can_write k.arch ptes pte) q pte force)
              fuel
              (done + pfn_sz)
              (drop pfn_sz input)
              (write_ram_physical_addr k.ram k.total_memory phy pfn_sz input ram).1
    unfolding write_loop
    goes q y z e = rw (y, z, e, write_loop) refl

  -- The entries before the first round, and those of a later one, answer the same questions.
  module _ (lawful : IsLawful k.arch) (first : Ptes) where
    abbrev pieces : ℕ → ℕ → ℕ × List Piece
    pieces fuel done = copy_loop (write_tables k first) pid address force size fuel done

    -- The count and the memory are those of the pieces, and the entries are as they were.
    abbrev pub Writes : ℕ × List Piece → List ℕ → (ℕ → ℕ) → ℕ × Ptes × (ℕ → ℕ) → Type 0
    Writes (total, ps) input ram (n, ptes', ram') =
        (n ≡ total) × AreSame k.arch first ptes' × (ram' ≡ written k ram input ps)

    reaches_same :
        (ptes : Ptes) (a : ℕ)
        → AreSame k.arch first ptes
        → reaches (write_tables k ptes) pid a force ≡ reaches (write_tables k first) pid a force
    unfolding reaches
    reaches_same ptes a same =
        simp
          (get_proc_phy_addr_same k first ptes same pid a, is_pte_can_write_same k first ptes same)
          refl

    pub write_loop-Writes :
        (fuel done : ℕ) (ptes : Ptes) (input : List ℕ) (ram : ℕ → ℕ)
        → AreSame k.arch first ptes
        → size - done ≤ length input
        → Writes (pieces fuel done) input ram (run ptes fuel done input ram)
    unfolding copy_loop
    write_loop-Writes zero done ptes input ram same room = unfold write_loop in (refl, same, refl)
    write_loop-Writes (suc fuel) done ptes input ram same room = elim (Bool-cases (ltb done size)) [
      | inr n ↦
          subst (Writes (pieces (suc fuel) done) input ram) (sym (past ptes fuel done input ram n))
            (rw (n, copy_loop) (refl, same, refl))
      | inl y ↦ elim (Bool-cases (phy ptes fuel done input ram == 0)) [
        | inl z ↦
            let refused : reaches (write_tables k first) pid (at ptes fuel done input ram) force
                ≡ false =
              sym (reaches_same ptes (at ptes fuel done input ram) same)
              ∙ reaches_null k ptes pid (at ptes fuel done input ram) force z in
            subst (Writes (pieces (suc fuel) done) input ram)
              (sym (stops_null ptes fuel done input ram y z))
              (rw (y, refused, copy_loop) (refl, same, refl))
        | inr z ↦
            let a = at ptes fuel done input ram in
            let asked = sym (reaches_same ptes a same) ∙ reaches-write k ptes pid a force z in
            elim (open_write-cases k lawful ptes (pte ptes fuel done input ram) force) [
              | inr (refused, n) ↦
                  subst (Writes (pieces (suc fuel) done) input ram)
                    (sym (stops_refused ptes fuel done input ram y z n))
                    (rw (y, asked ∙ refused, copy_loop) (refl, same, refl))
              | inl (allowed, (q, e, closed)) ↦
                  let q' =
                    close_write k.arch (is_pte_can_write k.arch ptes (pte ptes fuel done input ram))
                      q (pte ptes fuel done input ram) force in
                  let here =
                    ap (λ (r : ℕ × ℕ). r.0) (get_proc_phy_addr_same k first ptes same pid a) in
                  let page = (get_proc_phy_addr k first pid a).0 in
                  let n = size_inside_page page (min 4096 (size - done)) in
                  let (some_byte, within, inside) =
                    size_inside_page_bounds page (min 4096 (size - done))
                      (omega (arith, ltb→lt done size y)) in
                  let copied =
                    write_ram_within k.ram k.total_memory page n input some_byte inside
                      (omega arith) ram in
                  let ram1 = (write_ram_physical_addr k.ram k.total_memory page n input ram).1 in
                  let (count, later, memory) =
                    write_loop-Writes fuel (done + n) q' (drop n input) ram1
                      (AreSame-trans k.arch first ptes q' same closed)
                      (omega (arith, length-drop n input)) in
                  let round =
                    goes ptes fuel done input ram q y z e
                    ∙ ap
                        (λ (b : ℕ).
                          let m = size_inside_page b (min 4096 (size - done)) in
                          run q' fuel (done + m) (drop m input)
                            (write_ram_physical_addr k.ram k.total_memory b m input ram).1)
                        here in
                  subst (Writes (pieces (suc fuel) done) input ram) (sym round) (
                    rw (y, asked ∙ allowed, copy_loop)
                      (
                        count,
                        later,
                        memory
                            ∙ ap
                                (λ (r : ℕ → ℕ).
                                  written k r (drop n input) (pieces fuel (done + n)).1)
                                copied,
                      ))
            ]
      ]
    ]
