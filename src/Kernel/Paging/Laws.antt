-- ===== src/Kernel/Paging/Laws.antt =====
-- What the walk of rwMem/phy_mem.h gives for the bytes of a page.
use rw_mem.Common.{
  ℕ, ◌+◌, ◌*◌, ◌/◌, ◌%◌, ◌^◌, ◌<◌, ◌≡◌, ◌≢◌, refl, sym, ap₂, ◌∙◌, Option, none, some, inl, inr,
  arith, Option-cases, bit_or, bit_or-fields, bit_or-zero, zero-bit_or,
}
use rw_mem.Kernel.Paging.{Arch, Ptes, find_pte, get_task_proc_phy_addr}

-- Each level is indexed by bits of an address above its offset in the page, and pages start at whole
-- pages of physical memory.
pub record IsPaged (arch : Arch) : Type 0 where
  pub pgd : (mm a b : ℕ) → a / 4096 ≡ b / 4096 → arch.pgd_offset mm a ≡ arch.pgd_offset mm b
  pub p4d : (t a b : ℕ) → a / 4096 ≡ b / 4096 → arch.p4d_offset t a ≡ arch.p4d_offset t b
  pub pud : (t a b : ℕ) → a / 4096 ≡ b / 4096 → arch.pud_offset t a ≡ arch.pud_offset t b
  pub pmd : (t a b : ℕ) → a / 4096 ≡ b / 4096 → arch.pmd_offset t a ≡ arch.pmd_offset t b
  pub pte :
      (t a b : ℕ) → a / 4096 ≡ b / 4096 → arch.pte_offset_kernel t a ≡ arch.pte_offset_kernel t b
  pub aligned : (value : ℕ) → arch.page_to_phys value % 4096 ≡ 0

-- The two parts of an address do not meet.
pub bit_or-offset :
    (page offset : ℕ) → page % 4096 ≡ 0 → offset < 4096 → bit_or page offset ≡ page + offset
bit_or-offset page offset a h =
    ap₂ bit_or {x = page} {y = page / 4096 * 2 ^ 12 + 0} {u = offset} {v = 0 * 2 ^ 12 + offset}
      (omega arith) (omega arith)
    ∙ bit_or-fields (page / 4096) 0 12 0 offset (omega arith) (omega arith)
    ∙ omega (arith, bit_or-zero (page / 4096), zero-bit_or offset)

module _ (arch : Arch) (paged : IsPaged arch) (ptes : Ptes) where
  find_pte-page :
      (mm a b : ℕ) → a / 4096 ≡ b / 4096 → find_pte arch ptes mm a ≡ find_pte arch ptes mm b
  unfolding find_pte
  find_pte-page mm a b e =
      let pgd = arch.pgd_offset mm a in
      let p4d = arch.p4d_offset pgd a in
      let pud = arch.pud_offset p4d a in
      let pmd = arch.pmd_offset pud a in
      simp
        (
          ← paged.pgd mm a b e,
          ← paged.p4d pgd a b e,
          ← paged.pud p4d a b e,
          ← paged.pmd pud a b e,
          ← paged.pte pmd a b e,
        )
        refl

  pub get_task_proc_phy_addr-page :
      (task : Option ℕ) (a j : ℕ)
      → a % 4096 + j < 4096
      → (get_task_proc_phy_addr arch ptes task a).0 ≢ 0
      → (get_task_proc_phy_addr arch ptes task (a + j)).0
        ≡ (get_task_proc_phy_addr arch ptes task a).0 + j
  unfolding get_task_proc_phy_addr
  get_task_proc_phy_addr-page none a j h some_page = absurd (some_page refl)
  get_task_proc_phy_addr-page (some task) a j h some_page =
      elim (Option-cases (arch.get_task_mm task)) [
        | inl n ↦ absurd (some_page (rw (n, get_task_proc_phy_addr) refl))
        | inr (mm, m) ↦ elim (Option-cases (find_pte arch ptes mm a)) [
          | inl n ↦ absurd (some_page (rw (m, n, get_task_proc_phy_addr) refl))
          | inr (pte, y) ↦
              let same = sym (find_pte-page mm a (a + j) (omega arith)) in
              let page = arch.page_to_phys (ptes pte) in
              let start = paged.aligned (ptes pte) in
              rw (m, same, y, get_task_proc_phy_addr)
                (bit_or-offset page ((a + j) % 4096) start (omega arith)
                  ∙ omega (arith, bit_or-offset page (a % 4096) start (omega arith)))
        ]
      ]

  pub get_task_proc_phy_addr-offset :
      (task : Option ℕ) (a : ℕ)
      → (get_task_proc_phy_addr arch ptes task a).0 ≢ 0
      → (get_task_proc_phy_addr arch ptes task a).0 % 4096 ≡ a % 4096
  unfolding get_task_proc_phy_addr
  get_task_proc_phy_addr-offset none a some_page = absurd (some_page refl)
  get_task_proc_phy_addr-offset (some task) a some_page =
      elim (Option-cases (arch.get_task_mm task)) [
        | inl n ↦ absurd (some_page (rw (n, get_task_proc_phy_addr) refl))
        | inr (mm, m) ↦ elim (Option-cases (find_pte arch ptes mm a)) [
          | inl n ↦ absurd (some_page (rw (m, n, get_task_proc_phy_addr) refl))
          | inr (pte, y) ↦
              let page = arch.page_to_phys (ptes pte) in
              let start = paged.aligned (ptes pte) in
              rw (m, y, get_task_proc_phy_addr)
                (omega (arith, bit_or-offset page (a % 4096) start (omega arith), start))
        ]
      ]
