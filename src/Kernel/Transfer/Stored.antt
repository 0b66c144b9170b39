-- ===== src/Kernel/Transfer/Stored.antt =====
-- What rwmem_write of rwMem/sys.c leaves in physical memory.
use rw_mem.Common.{
  ℕ, zero, suc, ◌+◌, ◌-◌, ◌%◌, ◌^◌, ◌≤◌, ◌<◌, ◌≡◌, ◌≢◌, refl, sym, ap, subst, ◌∙◌, ◌⊎◌, false, inl,
  inr, ◌==◌, Bool, true, List, [], ◌∷◌, ltb, if◌then◌else◌, length, length-take, length-drop, take,
  drop, get_or, arith, Bool-cases, ltb→lt, ltb_ge, get_or-drop, get_or-take,
}
use rw_mem.Kernel.Memory.{Piece, reaches}
use rw_mem.Kernel.Memory.Pieces.{AreJoined}
use rw_mem.Kernel.Paging.{Ptes}
use rw_mem.Kernel.Paging.Laws.{IsPaged}
use rw_mem.Kernel.Physical.{put_bytes}
use rw_mem.Kernel.Physical.Copies.{is_stored, put}
use rw_mem.Kernel.Transfer.{Kernel}
use rw_mem.Kernel.Transfer.Bytes.{place, place-page}
use rw_mem.Kernel.Transfer.Entries.{write_tables}
use rw_mem.Kernel.Transfer.Writes.{written}

abbrev zeros : ℕ
zeros = 0

put_bytes_out :
    (ram : ℕ → ℕ) (a : ℕ) (bs : List ℕ) (x : ℕ)
    → ((j : ℕ) → j < length bs → a + j ≢ x)
    → put_bytes ram a bs x ≡ ram x
unfolding put_bytes
put_bytes_out ram a [] x out = refl
put_bytes_out ram a (b ∷ bs) x out =
    put_bytes_out (λ c. if c == a then b else ram c) (a + 1) bs x
      (λ j h e. out (suc j) (omega arith) (omega (arith, e)))
    ∙ ground (arith, out 0)

put_bytes_in :
    (ram : ℕ → ℕ) (a : ℕ) (bs : List ℕ) (j : ℕ)
    → j < length bs
    → put_bytes ram a bs (a + j) ≡ get_or bs j 0
unfolding put_bytes
put_bytes_in ram a [] j h = absurd (omega arith)
put_bytes_in ram a (b ∷ bs) zero h =
    put_bytes_out (λ c. if c == a then b else ram c) (a + 1) bs (a + 0)
      (λ j l e. absurd (omega (arith, e)))
    ∙ ground arith
put_bytes_in ram a (b ∷ bs) (suc j) h =
    ap (put_bytes (λ c. if c == a then b else ram c) (a + 1) bs) {x = a + suc j} {y = a + 1 + j}
      (omega arith)
    ∙ put_bytes_in (λ c. if c == a then b else ram c) (a + 1) bs j (omega arith)

module _ (k : Kernel) (first : Ptes) (pid address : ℕ) where
  -- No two of the process's bytes in the range lie at one place.
  abbrev pub AreDistinct : ℕ → ℕ → Type 0
  AreDistinct from to =
      (i j : ℕ)
      → from ≤ i
      → i < j
      → j < to
      → place k first pid address i ≢ place k first pid address j

  -- Where the datum for a byte goes: into a piece around it, within a page, that is stored; or nowhere,
  -- where the copy of its piece fails, and then the byte is as it was.
  abbrev pub Arrives : ℕ → ℕ → ℕ → ℕ → Type 0
  Arrives i datum old byte =
      (start : ℕ) × (n : ℕ) × (start ≤ i)
      × (i < start + n)
      × (place k first pid address start % 4096 + n ≤ 4096)
      × (((is_stored k.ram k.total_memory (place k first pid address start) n ≡ true)
            × (byte ≡ datum))
          ⊎ ((is_stored k.ram k.total_memory (place k first pid address start) n ≡ false)
              × (byte ≡ old)))

  pub Arrives-same :
      (i datum datum' old old' byte byte' : ℕ)
      → datum ≡ datum'
      → old ≡ old'
      → byte' ≡ byte
      → Arrives i datum old byte
      → Arrives i datum' old' byte'
  Arrives-same i datum datum' old old' byte byte' d o b c =
      subst (λ (x : ℕ). Arrives i datum' old' x) (sym b)
        (subst (λ (x : ℕ). Arrives i datum' x byte) o (subst (λ (x : ℕ). Arrives i x old byte) d c))

put_out :
    (k : Kernel) (ram : ℕ → ℕ) (a n : ℕ) (input : List ℕ) (x : ℕ)
    → ((j : ℕ) → j < n → a + j ≢ x)
    → put k.ram k.total_memory ram a n input x ≡ ram x
put_out k ram a n input x out = elim (Bool-cases (is_stored k.ram k.total_memory a n)) [
  | inr m ↦ rw m refl
  | inl y ↦
      rw y (
        put_bytes_out ram a (take n input) x
          (λ j h e. out j (omega (arith, length-take n input)) e))
]

module _ (k : Kernel) (paged : IsPaged k.arch) (first : Ptes) (pid address : ℕ) (force : Bool) where
  abbrev spot : ℕ → ℕ
  spot i = place k first pid address i

  reaches-spot :
      (from : ℕ)
      → reaches (write_tables k first) pid ((address + from) % 2 ^ 64) force ≡ true
      → spot from ≢ 0
  unfolding reaches
  reaches-spot from r z = ground arith

  joined-le :
      (from to : ℕ) (ps : List Piece)
      → AreJoined (write_tables k first) pid address force from to ps
      → from ≤ to
  joined-le from to [] joined = omega arith
  joined-le from to (p ∷ ps) (offset, some_byte, inside, here, reached, joined) =
      omega (arith, joined-le (from + p.size) to ps joined)

  in_piece :
      (from : ℕ) (p : Piece) (j : ℕ)
      → spot from ≡ p.phy_addr
      → reaches (write_tables k first) pid ((address + from) % 2 ^ 64) force ≡ true
      → p.phy_addr % 4096 + p.size ≤ 4096
      → j < p.size
      → spot (from + j) ≡ p.phy_addr + j
  in_piece from p j here reached inside h =
      place-page k paged first pid address force (λ a. 0) from p.size j (reaches-spot from reached)
        (subst (λ (a : ℕ). a % 4096 + p.size ≤ 4096) (sym here) inside) h
      ∙ ap (λ (a : ℕ). a + j) here

  pub written_out :
      (from to : ℕ) (ps : List Piece) (input : List ℕ) (ram : ℕ → ℕ) (x : ℕ)
      → AreJoined (write_tables k first) pid address force from to ps
      → ((i : ℕ) → from ≤ i → i < to → spot i ≢ x)
      → written k ram input ps x ≡ ram x
  written_out from to [] input ram x joined out = refl
  written_out from to (p ∷ ps) input ram x (offset, some_byte, inside, here, reached, joined) out =
      let later = joined-le (from + p.size) to ps joined in
      written_out (from + p.size) to ps (drop p.size input)
        (put k.ram k.total_memory ram p.phy_addr p.size input) x joined
        (λ i a b. out i (omega arith) b)
      ∙ put_out k ram p.phy_addr p.size input x (λ j h e.
        out (from + j) (omega arith) (omega (arith, later))
          (in_piece from p j here reached inside h ∙ e))

  -- What the first piece leaves at one of its bytes.
  put-Arrives :
      (from : ℕ) (p : Piece) (input : List ℕ) (ram : ℕ → ℕ) (j : ℕ)
      → p.size ≤ length input
      → p.phy_addr % 4096 + p.size ≤ 4096
      → spot from ≡ p.phy_addr
      → reaches (write_tables k first) pid ((address + from) % 2 ^ 64) force ≡ true
      → j < p.size
      → Arrives k first pid address
          (from + j)
          (get_or input j 0)
          (ram (spot (from + j)))
          (put k.ram k.total_memory ram p.phy_addr p.size input (spot (from + j)))
  put-Arrives from p input ram j room inside here reached h =
      let page = subst (λ (a : ℕ). a % 4096 + p.size ≤ 4096) (sym here) inside in
      let at = in_piece from p j here reached inside h in
      (
        from,
        p.size,
        omega arith,
        omega arith,
        page,
        elim (Bool-cases (is_stored k.ram k.total_memory p.phy_addr p.size)) [
          | inr n ↦
              inr (ap (λ (a : ℕ). is_stored k.ram k.total_memory a p.size) here ∙ n, rw n refl)
          | inl y ↦ inl (
            ap (λ (a : ℕ). is_stored k.ram k.total_memory a p.size) here ∙ y,
            rw y (
                ap (put_bytes ram p.phy_addr (take p.size input)) at
                ∙ put_bytes_in ram p.phy_addr (take p.size input) j
                    (omega (arith, length-take p.size input))
                ∙ get_or-take p.size input j zeros h),
          )
        ],
      )

  pub written_in :
      (from to : ℕ) (ps : List Piece) (input : List ℕ) (ram : ℕ → ℕ) (i : ℕ)
      → AreJoined (write_tables k first) pid address force from to ps
      → AreDistinct k first pid address from to
      → to - from ≤ length input
      → from ≤ i
      → i < to
      → Arrives k first pid address i
          (get_or input (i - from) 0)
          (ram (spot i))
          (written k ram input ps (spot i))
  written_in from to [] input ram i joined distinct room a b = absurd (omega arith)
  written_in from to (p ∷ ps) input ram i (offset, some_byte, inside, here, reached, joined)
        distinct room a b =
      let later = joined-le (from + p.size) to ps joined in
      let ram' = put k.ram k.total_memory ram p.phy_addr p.size input in
      let rest = drop p.size input in
      elim (Bool-cases (ltb i (from + p.size))) [
        | inl y ↦
            let low = ltb→lt i (from + p.size) y in
            let j = i - from in
            let at : from + j ≡ i = omega arith in
            let stored =
              subst
                (λ (x : ℕ).
                  Arrives k first pid address x (get_or input j 0) (ram (spot x)) (ram' (spot x)))
                at
                (put-Arrives from p input ram j (omega (arith, later)) inside here reached
                  (omega (arith, low))) in
            Arrives-same k first pid address i (get_or input j 0) (get_or input j 0) (ram (spot i))
              (ram (spot i)) (ram' (spot i)) (written k ram' rest ps (spot i)) refl refl
              (written_out (from + p.size) to ps rest ram' (spot i) joined
                (λ l c d e. distinct i l a (omega (arith, low)) d (sym e)))
              stored
        | inr n ↦
            let high = ltb_ge i (from + p.size) n in
            let j = i - (from + p.size) in
            Arrives-same k first pid address i (get_or rest j 0) (get_or input (i - from) 0)
              (ram' (spot i)) (ram (spot i)) (written k ram' rest ps (spot i))
              (written k ram' rest ps (spot i))
              (get_or-drop p.size input j zeros
                ∙ ap (λ (x : ℕ). get_or input x 0) {x = p.size + j} {y = i - from}
                    (omega (arith, high)))
              (put_out k ram p.phy_addr p.size input (spot i) (λ l h e.
                distinct (from + l) i (omega arith) (omega (arith, high)) b
                  (in_piece from p l here reached inside h ∙ e)))
              refl
              (written_in (from + p.size) to ps rest ram' i joined
                (λ c d u v w. distinct c d (omega (arith, u)) v w)
                (omega (arith, length-drop p.size input)) (omega (arith, high)) b)
      ]
