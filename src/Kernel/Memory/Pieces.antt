-- ===== src/Kernel/Memory/Pieces.antt =====
-- Which memory a read or a write of rwMem/sys.c copies.
use rw_mem.Common.{
  ℕ, zero, suc, ◌+◌, ◌-◌, ◌%◌, ◌^◌, ◌≤◌, ◌<◌, ◌≡◌, refl, ◌⊎◌, inl, inr, Bool, true, false, List, [],
  ◌∷◌, ltb, min, arith, Bool-cases, ltb→lt, ltb_ge,
}
use rw_mem.Kernel.Memory.{PageTables, Piece, size_inside_page, reaches, copy_loop}

pub size_inside_page_bounds :
    (start size : ℕ)
    → 0 < size
    → (0 < size_inside_page start size)
      × (size_inside_page start size ≤ size)
      × (start % 4096 + size_inside_page start size ≤ 4096)
unfolding size_inside_page
size_inside_page_bounds start size h = (omega arith, omega arith, omega arith)

module _ (k : PageTables) (pid address : ℕ) (force : Bool) where
  -- The pieces follow one another from an offset to another, each within its page, and lie where the
  -- kernel says that the process's memory does, at addresses that can be accessed.
  abbrev pub AreJoined : ℕ → ℕ → List Piece → Type 0
  AreJoined from to [] = from ≡ to
  AreJoined from to (p ∷ ps) =
      (p.offset ≡ from)
      × (0 < p.size)
      × (p.phy_addr % 4096 + p.size ≤ 4096)
      × (k.get_proc_phy_addr pid ((address + from) % 2 ^ 64) ≡ p.phy_addr)
      × (reaches k pid ((address + from) % 2 ^ 64) force ≡ true)
      × AreJoined (from + p.size) to ps

  -- The loop ends with all bytes copied, or at a page that cannot be accessed.
  abbrev pub Ends : ℕ → ℕ → Type 0
  Ends size total =
      (total ≡ size) ⊎ ((total < size) × (reaches k pid ((address + total) % 2 ^ 64) force ≡ false))

  pub copy_loop_lem :
      (size fuel done : ℕ)
      → done ≤ size
      → size - done ≤ fuel
      → AreJoined done
          (copy_loop k pid address force size fuel done).0
          (copy_loop k pid address force size fuel done).1
        × Ends size (copy_loop k pid address force size fuel done).0
  unfolding copy_loop
  copy_loop_lem size zero done within enough = (refl, inl (omega arith))
  copy_loop_lem size (suc fuel) done within enough =
      let at = (address + done) % 2 ^ 64 in
      let phy_addr = k.get_proc_phy_addr pid at in
      let pfn_sz = size_inside_page phy_addr (min 4096 (size - done)) in
      elim (Bool-cases (ltb done size)) [
        | inr n ↦ rw (n, copy_loop) (refl, inl (omega (arith, ltb_ge done size n)))
        | inl y ↦
            let bounds =
              size_inside_page_bounds phy_addr (min 4096 (size - done))
                (omega (arith, ltb→lt done size y)) in
            elim (Bool-cases (reaches k pid at force)) [
              | inr n ↦ rw (y, n, copy_loop) (refl, inr (ltb→lt done size y, n))
              | inl r ↦
                  let (a, b) =
                    copy_loop_lem size fuel (done + pfn_sz)
                      (omega (arith, bounds, ltb→lt done size y))
                      (omega (arith, bounds, ltb→lt done size y)) in
                  rw (y, r, copy_loop) ((refl, bounds.0, bounds.2, refl, r, a), b)
            ]
      ]

pub Ends-le :
    (size total : ℕ) (tables : PageTables) (pid address : ℕ) (force : Bool)
    → Ends tables pid address force size total
    → total ≤ size
Ends-le size total tables pid address force (inl e) = omega arith
Ends-le size total tables pid address force (inr (h, r)) = omega arith
