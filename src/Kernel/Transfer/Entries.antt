-- ===== src/Kernel/Transfer/Entries.antt =====
-- What a forced write of rwMem/sys.c does to the page tables, and undoes.
use rw_mem.Common.{
  ℕ, ◌%◌, ◌≡◌, refl, sym, ap, subst, ◌∙◌, ◌⊎◌, inl, inr, ◌==◌, Bool, true, false, not, ◌&&◌, ◌||◌,
  none, some, arith, Bool-cases, Option-cases, bit_or,
}
use rw_mem.Kernel.Memory.{PageTables}
use rw_mem.Kernel.Paging.{
  Arch, Ptes, set_pte, find_pte, get_task_proc_phy_addr, is_pte_can_write, change_pte_write_status,
}
use rw_mem.Kernel.Transfer.{
  Kernel, get_proc_phy_addr, check_proc_map_can_write, open_write, close_write,
}

-- What the header files say of the two functions that change an entry.
pub record IsLawful (arch : Arch) : Type 0 where
  pub write-mkwrite : (v : ℕ) → arch.pte_write (arch.pte_mkwrite v) ≡ true
  pub write-wrprotect : (v : ℕ) → arch.pte_write (arch.pte_wrprotect v) ≡ false
  pub none-mkwrite : (v : ℕ) → arch.pte_none (arch.pte_mkwrite v) ≡ arch.pte_none v
  pub none-wrprotect : (v : ℕ) → arch.pte_none (arch.pte_wrprotect v) ≡ arch.pte_none v
  pub page-mkwrite : (v : ℕ) → arch.page_to_phys (arch.pte_mkwrite v) ≡ arch.page_to_phys v
  pub page-wrprotect : (v : ℕ) → arch.page_to_phys (arch.pte_wrprotect v) ≡ arch.page_to_phys v

-- Entries that are empty, point to a page and can be written just as they did before.
pub record AreSame (arch : Arch) (ptes ptes' : Ptes) : Type 0 where
  pub same_none : (p : ℕ) → arch.pte_none (ptes' p) ≡ arch.pte_none (ptes p)
  pub same_page : (p : ℕ) → arch.page_to_phys (ptes' p) ≡ arch.page_to_phys (ptes p)
  pub same_write : (p : ℕ) → arch.pte_write (ptes' p) ≡ arch.pte_write (ptes p)

pub AreSame-refl : (arch : Arch) (ptes : Ptes) → AreSame arch ptes ptes
AreSame-refl arch ptes = record {
  same_none = λ p. refl;
  same_page = λ p. refl;
  same_write = λ p. refl;
}

pub AreSame-trans :
    (arch : Arch) (a b c : Ptes) → AreSame arch a b → AreSame arch b c → AreSame arch a c
AreSame-trans arch a b c s t = record {
  same_none = λ p. t.same_none p ∙ s.same_none p;
  same_page = λ p. t.same_page p ∙ s.same_page p;
  same_write = λ p. t.same_write p ∙ s.same_write p;
}

-- What the loop of `rwmem_write` asks of the entries, as questions about addresses.
abbrev pub write_tables : Kernel → Ptes → PageTables
write_tables k ptes = record {
  find_get_pid = k.tasks.find_get_pid;
  check_proc_map = check_proc_map_can_write k;
  get_proc_phy_addr = λ pid a. (get_proc_phy_addr k ptes pid a).0;
  is_pte_allowing = λ pid a. is_pte_can_write k.arch ptes (get_proc_phy_addr k ptes pid a).1;
  change_pte_status = λ pid a. not ((get_proc_phy_addr k ptes pid a).1 == 0);
}

module _ (k : Kernel) (ptes ptes' : Ptes) (same : AreSame k.arch ptes ptes') where
  find_pte_same : (mm a : ℕ) → find_pte k.arch ptes' mm a ≡ find_pte k.arch ptes mm a
  unfolding find_pte
  find_pte_same mm a = simp (same.same_none) refl

  pub get_proc_phy_addr_same :
      (pid a : ℕ) → get_proc_phy_addr k ptes' pid a ≡ get_proc_phy_addr k ptes pid a
  unfolding get_proc_phy_addr get_task_proc_phy_addr
  get_proc_phy_addr_same pid a = elim (Option-cases (k.tasks.pid_task pid)) [
    | inl n ↦ rw (n, get_proc_phy_addr) refl
    | inr (task, t) ↦ elim (Option-cases (k.arch.get_task_mm task)) [
      | inl n ↦ rw (t, n, get_proc_phy_addr, get_task_proc_phy_addr) refl
      | inr (mm, m) ↦ elim (Option-cases (find_pte k.arch ptes mm a)) [
        | inl n ↦
            rw (t, m, n, find_pte_same mm a ∙ n, get_proc_phy_addr, get_task_proc_phy_addr) refl
        | inr (pte, f) ↦
            rw (t, m, f, find_pte_same mm a ∙ f, get_proc_phy_addr, get_task_proc_phy_addr)
              (ap (λ (page : ℕ). (bit_or page (a % 4096), pte)) (same.same_page pte))
      ]
    ]
  ]

  pub is_pte_can_write_same :
      (pte : ℕ) → is_pte_can_write k.arch ptes' pte ≡ is_pte_can_write k.arch ptes pte
  unfolding is_pte_can_write
  is_pte_can_write_same pte = simp (same.same_write) refl

-- Before a copy and behind it.
module _ (k : Kernel) (lawful : IsLawful k.arch) (ptes : Ptes) (pte : ℕ) (force : Bool) where
  abbrev closed : Ptes → Ptes
  closed opened = close_write k.arch (is_pte_can_write k.arch ptes pte) opened pte force

  abbrev forced : Ptes
  forced = set_pte ptes pte (k.arch.pte_mkwrite (ptes pte))

  abbrev restored : Ptes
  restored = set_pte forced pte (k.arch.pte_wrprotect (forced pte))

  forced_at : forced pte ≡ k.arch.pte_mkwrite (ptes pte)
  forced_at = ground arith

  restored-AreSame : k.arch.pte_write (ptes pte) ≡ false → AreSame k.arch ptes restored
  restored-AreSame cannot = record {
    same_none = λ p. ground (
      arith,
      forced_at,
      lawful.none-wrprotect (k.arch.pte_mkwrite (ptes pte)),
      lawful.none-mkwrite (ptes pte),
    );
    same_page = λ p. ground (
      arith,
      forced_at,
      lawful.page-wrprotect (k.arch.pte_mkwrite (ptes pte)),
      lawful.page-mkwrite (ptes pte),
    );
    same_write =
        λ p. ground (arith, forced_at, lawful.write-wrprotect (k.arch.pte_mkwrite (ptes pte)));
  }

  abbrev can : Bool
  can = is_pte_can_write k.arch ptes pte

  can_entry : can ≡ false → (pte == 0) ≡ false → k.arch.pte_write (ptes pte) ≡ false
  unfolding is_pte_can_write
  can_entry c n = ground arith

  close_allowed : can ≡ true → close_write k.arch can ptes pte force ≡ ptes
  unfolding close_write
  close_allowed c = ground arith

  close_forced :
      can ≡ false
      → force ≡ true
      → (pte == 0) ≡ false
      → close_write k.arch can forced pte force ≡ restored
  unfolding close_write change_pte_write_status
  close_forced c f n = rw (c, f, n, close_write, change_pte_write_status) refl

  open_allowed : can ≡ true → open_write k.arch ptes pte force ≡ some ptes
  unfolding open_write
  open_allowed c = rw (c, open_write) refl

  open_forced :
      can ≡ false
      → force ≡ true
      → (pte == 0) ≡ false
      → open_write k.arch ptes pte force ≡ some forced
  unfolding open_write change_pte_write_status
  open_forced c f n = rw (c, f, n, open_write, change_pte_write_status) refl

  open_null :
      can ≡ false → force ≡ true → (pte == 0) ≡ true → open_write k.arch ptes pte force ≡ none
  unfolding open_write change_pte_write_status
  open_null c f n = rw (c, f, n, open_write, change_pte_write_status) refl

  open_refused : can ≡ false → force ≡ false → open_write k.arch ptes pte force ≡ none
  unfolding open_write
  open_refused c f = rw (c, f, open_write) refl

  -- The write of a page goes on or is refused, and what it changes is undone.
  pub open_write-cases :
      ((can || (force && not (pte == 0)) ≡ true)
        × ((q : Ptes) × (open_write k.arch ptes pte force ≡ some q)
            × AreSame k.arch ptes (close_write k.arch can q pte force)))
      ⊎ ((can || (force && not (pte == 0)) ≡ false) × (open_write k.arch ptes pte force ≡ none))
  open_write-cases = elim (Bool-cases can) [
    | inl c ↦ inl (
      ground arith,
      (
        ptes,
        open_allowed c,
        subst (AreSame k.arch ptes) (sym (close_allowed c)) (AreSame-refl k.arch ptes),
      ),
    )
    | inr c ↦ elim (Bool-cases force) [
      | inr f ↦ inr (ground arith, open_refused c f)
      | inl f ↦ elim (Bool-cases (pte == 0)) [
        | inl n ↦ inr (ground arith, open_null c f n)
        | inr n ↦ inl (
          ground arith,
          (
            forced,
            open_forced c f n,
            subst (AreSame k.arch ptes) (sym (close_forced c f n))
                (restored-AreSame (can_entry c n)),
          ),
        )
      ]
    ]
  ]
