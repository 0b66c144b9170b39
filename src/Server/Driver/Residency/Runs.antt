-- ===== src/Server/Driver/Residency/Runs.antt =====
-- The loop over the pages of an area in CEServer/MemoryReaderWriter37.hpp finds its runs of pages.
use rw_mem.Common.{
  ℕ, zero, suc, ◌+◌, ◌*◌, ◌%◌, ◌^◌, ◌≤◌, ◌<◌, ◌≡◌, refl, sym, ap, ◌∙◌, ◌⊎◌, inl, inr, Bool, true,
  false, Option, none, some, List, [], ◌∷◌, ltb, ◌==◌, lt→ltb, arith, Bool-cases,
}
use rw_mem.Server.Handle.{RegionInfo}
use rw_mem.Server.Driver.Residency.{is_phy, part, prepend, phy_loop}

-- An area of `n` pages, and which of them are there.
module _ (r : RegionInfo) (n : ℕ) (resident : ℕ → Bool) where
  abbrev pub page : ℕ → ℕ
  page i = r.baseaddress + 4096 * i

  abbrev pub AreAbsent : ℕ → ℕ → Type 0
  AreAbsent s t = (j : ℕ) → s ≤ j → j < t → resident j ≡ false

  abbrev pub ArePresent : ℕ → ℕ → Type 0
  ArePresent s t = (j : ℕ) → s ≤ j → j < t → resident j ≡ true

  -- The parts are the runs of pages from `p` on, none of them empty or cut short, in order and with
  -- nothing left out between them.
  abbrev pub AreRuns : ℕ → List RegionInfo → Type 0
  AreRuns p [] = AreAbsent p n
  AreRuns p (q ∷ qs) =
      (s : ℕ) × (t : ℕ) × (q ≡ part r (page s) (page t))
      × (p ≤ s)
      × (s < t)
      × (t ≤ n)
      × AreAbsent p s
      × ArePresent s t
      × ((t ≡ n) ⊎ (resident t ≡ false))
      × AreRuns t qs

  extend_absent : (s t : ℕ) → resident s ≡ false → AreAbsent (s + 1) t → AreAbsent s t
  extend_absent s t here later j a b = elim (Bool-cases (s == j)) [
    | inl e ↦ ground arith
    | inr e ↦ later j (ground arith) b
  ]

  extend_present : (s t : ℕ) → resident s ≡ true → ArePresent (s + 1) t → ArePresent s t
  extend_present s t here later j a b = elim (Bool-cases (s == j)) [
    | inl e ↦ ground arith
    | inr e ↦ later j (ground arith) b
  ]

  extend_runs :
      (p : ℕ) (qs : List RegionInfo) → resident p ≡ false → AreRuns (p + 1) qs → AreRuns p qs
  extend_runs p [] here later = extend_absent p n here later
  extend_runs p (q ∷ qs) here (s, t, e, a, b, c, gap, run, stops, rest) =
      (s, t, e, omega arith, b, c, extend_absent p s here gap, run, stops, rest)

  module _ (isphy : List ℕ) (vma_end : ℕ) (ends : page n ≡ vma_end) (top : vma_end < 2 ^ 64)
      (bits : (p : ℕ) → p < n → is_phy isphy p ≡ some (resident p)) where
    -- The loop at page `i` with no part open, and with one that is open.
    abbrev Closed : ℕ → ℕ → Type 0
    Closed rounds i =
        (qs : List RegionInfo) × (phy_loop r isphy vma_end rounds (page i) i none ≡ some qs)
        × AreRuns i qs

    abbrev Open : ℕ → ℕ → ℕ → Type 0
    Open rounds i s =
        (t : ℕ) × (qs : List RegionInfo) × (phy_loop r isphy vma_end rounds (page i) i
            (some (page s))
          ≡ some (part r (page s) (page t) ∷ qs))
        × (i ≤ t)
        × (t ≤ n)
        × ArePresent i t
        × ((t ≡ n) ⊎ (resident t ≡ false))
        × AreRuns t qs

    abbrev run : ℕ → ℕ → Option ℕ → Option (List RegionInfo)
    run rounds i open_at = phy_loop r isphy vma_end rounds (page i) i open_at

    -- One round.
    module _ (rounds i : ℕ) (e : i + suc rounds ≡ n) where
      inside : ltb (page i) vma_end ≡ true
      inside = lt→ltb (page i) vma_end (omega arith)

      next : (page i + 4096) % 2 ^ 64 ≡ page (i + 1)
      next = omega arith

      bit : (b : Bool) → resident i ≡ b → is_phy isphy i ≡ some b
      bit b h = bits i (omega arith) ∙ ap some h

      opens : resident i ≡ true → run (suc rounds) i none ≡ run rounds (i + 1) (some (page i))
      unfolding phy_loop
      opens h = rw (inside, bit true h, next, phy_loop) refl

      goes_on :
          (base : ℕ)
          → resident i ≡ true
          → run (suc rounds) i (some base) ≡ run rounds (i + 1) (some base)
      unfolding phy_loop
      goes_on base h = rw (inside, bit true h, next, phy_loop) refl

      skips : resident i ≡ false → run (suc rounds) i none ≡ run rounds (i + 1) none
      unfolding phy_loop
      skips h = rw (inside, bit false h, next, phy_loop) refl

      closes :
          (base : ℕ)
          → resident i ≡ false
          → run (suc rounds) i (some base)
            ≡ prepend (part r base (page i)) (run rounds (i + 1) none)
      unfolding phy_loop
      closes base h = rw (inside, bit false h, next, phy_loop) refl

    phy_loop_lem : (rounds i : ℕ) → i + rounds ≡ n → Closed rounds i × ((s : ℕ) → Open rounds i s)
    phy_loop_lem zero i e =
        let last : page i ≡ vma_end = omega arith in
        unfold phy_loop in
        (
          ([], refl, λ j a b. absurd (omega arith)),
          λ s. (
            i,
            [],
            ap (λ (a : ℕ). some (part r (page s) a ∷ [])) (sym last),
            omega arith,
            omega arith,
            λ j a b. absurd (omega arith),
            inl (omega arith),
            λ j a b. absurd (omega arith),
          ),
        )
    phy_loop_lem (suc rounds) i e =
        let (closed, open_from) = phy_loop_lem rounds (i + 1) (omega arith) in
        let (qs, same, later) = closed in
        elim (Bool-cases (resident i)) [
          | inl y ↦ (
            let (t, rest, eq, a, b, present, stops, runs) = open_from i in
                (
                  part r (page i) (page t) ∷ rest,
                  opens rounds i e y ∙ eq,
                  (
                    i,
                    t,
                    refl,
                    omega arith,
                    omega arith,
                    b,
                    λ j c d. absurd (omega arith),
                    extend_present i t y present,
                    stops,
                    runs,
                  ),
                ),
            λ s.
                let (t, rest, eq, a, b, present, stops, runs) = open_from s in
                (
                  t,
                  rest,
                  goes_on rounds i e (page s) y ∙ eq,
                  omega arith,
                  b,
                  extend_present i t y present,
                  stops,
                  runs,
                ),
          )
          | inr m ↦ (
            (qs, skips rounds i e m ∙ same, extend_runs i qs m later),
            λ s. (
              i,
              qs,
              closes rounds i e (page s) m ∙ ap (prepend (part r (page s) (page i))) same,
              omega arith,
              omega arith,
              λ j c d. absurd (omega arith),
              inr m,
              extend_runs i qs m later,
            ),
          )
        ]

    pub phy_loop-AreRuns :
        (qs : List RegionInfo) × (phy_loop r isphy vma_end n r.baseaddress 0 none ≡ some qs)
        × AreRuns 0 qs
    phy_loop-AreRuns =
        let (qs, same, runs) = (phy_loop_lem n 0 (omega arith)).0 in
        (
          qs,
          ap (λ (a : ℕ). phy_loop r isphy vma_end n a 0 none) {x = r.baseaddress} {y = page 0}
                (omega arith)
              ∙ same,
          runs,
        )
