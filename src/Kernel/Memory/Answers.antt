-- ===== src/Kernel/Memory/Answers.antt =====
-- What rwMem/sys.c answers to a read or a write, on every branch.
use rw_mem.Common.{ℕ, ◌≡◌, refl, ◌⊎◌, inl, inr, Bool, true, false, List, [], arith, Bool-cases}
use rw_mem.Common.Result.{Result, ok, err, einval, efault}
use rw_mem.Kernel.Memory.{PageTables, Piece, serve, copy_loop}
use rw_mem.Kernel.Memory.Pieces.{AreJoined, Ends, copy_loop_lem}

-- What the driver does for a process, an address, a size and whether it is forced: nothing if there is
-- no such process or the area does not allow the access, and else the pieces from the address on,
-- each in its page, up to the size or to the first page that cannot be accessed.
abbrev pub Answers : PageTables → ℕ → ℕ → ℕ → Bool → Result ℕ × List Piece → Type 0
Answers k pid address size force (r, pieces) =
    ((k.find_get_pid pid ≡ false) × (r ≡ err einval) × (pieces ≡ []))
    ⊎ ((force ≡ false)
        × (k.check_proc_map pid address size ≡ false)
        × (r ≡ err efault)
        × (pieces ≡ []))
    ⊎ ((total : ℕ) × (r ≡ ok total)
        × AreJoined k pid address force 0 total pieces
        × Ends k pid address force size total)

pub serve-Answers :
    (k : PageTables) (pid address : ℕ) (force : Bool) (size : ℕ)
    → Answers k pid address size force (serve k pid address force size)
unfolding serve
serve-Answers k pid address true size =
    let (joined, ends) = copy_loop_lem k pid address true size size 0 (omega arith) (omega arith) in
    elim (Bool-cases (k.find_get_pid pid)) [
      | inr n ↦ rw (serve, n) (inl (refl, refl, refl))
      | inl y ↦
          rw (serve, y)
            (inr (inr ((copy_loop k pid address true size size 0).0, refl, joined, ends)))
    ]
serve-Answers k pid address false size =
    let (joined, ends) =
      copy_loop_lem k pid address false size size 0 (omega arith) (omega arith) in
    elim (Bool-cases (k.find_get_pid pid)) [
      | inr n ↦ rw (serve, n) (inl (refl, refl, refl))
      | inl y ↦ elim (Bool-cases (k.check_proc_map pid address size)) [
        | inl c ↦
            rw (serve, y, c)
              (inr (inr ((copy_loop k pid address false size size 0).0, refl, joined, ends)))
        | inr c ↦ rw (serve, y, c) (inr (inl (refl, refl, refl, refl)))
      ]
    ]
