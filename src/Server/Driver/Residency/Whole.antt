-- ===== src/Server/Driver/Residency/Whole.antt =====
-- The whole list of areas of CEServer/MemoryReaderWriter37.hpp, cut down to pages in physical memory.
use rw_mem.Common.{
  ℕ, zero, suc, ◌+◌, ◌*◌, ◌/◌, ◌%◌, ◌^◌, ◌<◌, ◌≡◌, ◌≢◌, refl, sym, subst, Bool, true, false, Option,
  none, some, List, [], ◌∷◌, ◌++◌, ◌==◌, arith, take, drop, load, Option-cases, Bool-cases, All,
  inl, inr,
}
use rw_mem.Common.Result.{Result, ok, Result-cases}
use rw_mem.Kernel.Paging.{Arch, Ptes}
use rw_mem.Kernel.Residency.{Tasks, is_resident, check_phy_ioctl}
use rw_mem.Server.Handle.{RegionInfo}
use rw_mem.Server.Driver.{
  is_positive_int, read_entry, read_entries, answer, answered, virtual_query_ex_full, big_buf,
}
use rw_mem.Server.Driver.Residency.{resident_parts, read_resident, virtual_query_ex_full_phy}
use rw_mem.Server.Driver.Residency.Runs.{AreRuns}
use rw_mem.Server.Driver.Residency.Shown.{resident_parts-kernel}

zero_entries : (mem : List ℕ) (rs : List RegionInfo) → read_entries 0 mem ≡ some rs → rs ≡ []
unfolding read_entries
zero_entries mem rs e = ground arith

no_entry : (res : ℕ) (mem : List ℕ) → read_entries (suc res) mem ≢ some []
unfolding read_entries
no_entry res mem e = elim (Option-cases (read_entry mem)) [
  | inl n ↦ ground arith
  | inr ((r, rest), y) ↦ elim (Option-cases (read_entries res rest)) [
    | inl n ↦ ground arith
    | inr (more, z) ↦ ground arith
  ]
]

first_entry :
    (res : ℕ) (mem : List ℕ) (r : RegionInfo) (rs : List RegionInfo)
    → read_entries (suc res) mem ≡ some (r ∷ rs)
    → (rest : List ℕ) × (read_entry mem ≡ some (r, rest)) × (read_entries res rest ≡ some rs)
unfolding read_entries
first_entry res mem r rs e = elim (Option-cases (read_entry mem)) [
  | inl n ↦ absurd (ground arith)
  | inr ((q, rest), y) ↦ elim (Option-cases (read_entries res rest)) [
    | inl n ↦ absurd (ground arith)
    | inr (more, z) ↦ (rest, ground arith, ground arith)
  ]
]

read_resident-suc :
    (check_ioctl : List ℕ → Result ℕ × List ℕ) (process res : ℕ) (mem rest : List ℕ)
    (r : RegionInfo) (here later : List RegionInfo)
    → read_entry mem ≡ some (r, rest)
    → resident_parts check_ioctl process r ≡ some here
    → read_resident check_ioctl process res rest ≡ some later
    → read_resident check_ioctl process (suc res) mem ≡ some (here ++ later)
unfolding read_resident
read_resident-suc check_ioctl process res mem rest r here later first shown same = ground arith

answered_inversion :
    (unfinish complete passed : Bool) (o : Option (List RegionInfo)) (rs : List RegionInfo)
    → answered unfinish o ≡ answer complete rs passed
    → (o ≡ some rs)
      × ((qs : List RegionInfo) → answered unfinish (some qs) ≡ answer complete qs passed)
answered_inversion false complete passed none rs e = absurd (ground arith)
answered_inversion true complete passed none rs e = absurd (ground arith)
answered_inversion false complete passed (some qs) rs e = (ground arith, λ qs'. ground arith)
answered_inversion true complete passed (some qs) rs e = (ground arith, λ qs'. ground arith)

abbrev listed_in : (List ℕ → Result Bool × List ℕ) → ℕ → ℕ → List ℕ
listed_in list_ioctl process count = (list_ioctl (big_buf process (count % 2 ^ 32))).1

module _ (count_ioctl : ℕ → Result ℕ) (list_ioctl : List ℕ → Result Bool × List ℕ)
    (process : ℕ) where
  -- What the query did if it ended with an answer.
  answered_query :
      (complete passed : Bool) (rs : List RegionInfo)
      → virtual_query_ex_full true count_ioctl list_ioctl process ≡ answer complete rs passed
      → (count : ℕ) × (unfinish : Bool) × ((process == 0) ≡ false)
        × (count_ioctl process ≡ ok count)
        × ((list_ioctl (big_buf process (count % 2 ^ 32))).0 ≡ ok unfinish)
        × (is_positive_int count ≡ true)
        × (read_entries
              (load (take 8 (listed_in list_ioctl process count)))
              (drop 8 (listed_in list_ioctl process count))
            ≡ some rs)
        × ((qs : List RegionInfo) → answered unfinish (some qs) ≡ answer complete qs passed)
  unfolding virtual_query_ex_full
  answered_query complete passed rs e = elim (Bool-cases (process == 0)) [
    | inl y ↦ absurd (ground arith)
    | inr there ↦ elim (Result-cases (count_ioctl process)) [
      | inl (x, y) ↦ absurd (ground arith)
      | inr (count, counted) ↦
          let mem = listed_in list_ioctl process count in
          elim (Bool-cases (is_positive_int count)) [
            | inr n ↦ absurd (ground arith)
            | inl positive ↦ elim (Result-cases (list_ioctl (big_buf process (count % 2 ^ 32))).0) [
              | inl (x, y) ↦ absurd (ground arith)
              | inr (unfinish, listed) ↦
                  let (read, same) =
                    answered_inversion unfinish complete passed
                      (read_entries (load (take 8 mem)) (drop 8 mem)) rs (ground arith) in
                  (count, unfinish, there, counted, listed, positive, read, same)
            ]
          ]
    ]
  ]

answer_again :
    (check_ioctl : List ℕ → Result ℕ × List ℕ) (process count : ℕ) (unfinish complete passed : Bool)
    (qs : List RegionInfo) (count_ioctl : ℕ → Result ℕ) (list_ioctl : List ℕ → Result Bool × List ℕ)
    → (process == 0) ≡ false
    → count_ioctl process ≡ ok count
    → (list_ioctl (big_buf process (count % 2 ^ 32))).0 ≡ ok unfinish
    → is_positive_int count ≡ true
    → read_resident check_ioctl process
        (load (take 8 (listed_in list_ioctl process count)))
        (drop 8 (listed_in list_ioctl process count))
      ≡ some qs
    → answered unfinish (some qs) ≡ answer complete qs passed
    → virtual_query_ex_full_phy check_ioctl true count_ioctl list_ioctl process
      ≡ answer complete qs passed
unfolding virtual_query_ex_full_phy
answer_again check_ioctl process count unfinish complete passed qs count_ioctl list_ioctl there
      counted listed positive found_parts same =
    rw (there, counted, listed, positive, found_parts) same

-- A process that the driver finds.
module _ (arch : Arch) (ptes : Ptes) (tasks : Tasks) (process task : ℕ) (some_process : process ≢ 0)
    (found : tasks.find_get_pid (process % 2 ^ 32) ≡ true)
    (alive : tasks.pid_task (process % 2 ^ 32) ≡ some task) where
  abbrev pub IsWhole : RegionInfo → Type 0
  IsWhole r =
      (r.baseaddress % 4096 ≡ 0)
      × (r.size % 4096 ≡ 0)
      × (0 < r.size)
      × (r.baseaddress + r.size < 2 ^ 64)
      × (r.size / 4096 < 2 ^ 31)

  -- The areas' runs, area after area.
  abbrev pub AreShown : List RegionInfo → List RegionInfo → Type 0
  AreShown [] qs = qs ≡ []
  AreShown (r ∷ rs) qs =
      (here : List RegionInfo) × (later : List RegionInfo) × (qs ≡ here ++ later)
      × AreRuns r (r.size / 4096) (λ p. is_resident arch ptes task (r.baseaddress + 4096 * p)) 0
          here
      × AreShown rs later

  abbrev check : List ℕ → Result ℕ × List ℕ
  check = check_phy_ioctl arch ptes tasks true

  read_resident-AreShown :
      (res : ℕ) (mem : List ℕ) (rs : List RegionInfo)
      → read_entries res mem ≡ some rs
      → All IsWhole rs
      → (qs : List RegionInfo) × (read_resident check process res mem ≡ some qs) × AreShown rs qs
  read_resident-AreShown zero mem rs e whole =
      let none_left : rs ≡ [] = zero_entries mem rs e in
      subst
        (λ l.
          (qs : List RegionInfo) × (read_resident check process 0 mem ≡ some qs) × AreShown l qs)
        (sym none_left) (unfold read_resident in ([], refl, refl))
  read_resident-AreShown (suc res) mem [] e whole = absurd (no_entry res mem e)
  read_resident-AreShown (suc res) mem (r ∷ rs) e (of_r, of_rs) =
      let (rest, first, others) = first_entry res mem r rs e in
      let (a, b, order, top, small) = of_r in
      let (here, shown, runs) =
        resident_parts-kernel arch ptes tasks process task some_process found alive r a b order top
          small in
      let (later, same, more) = read_resident-AreShown res rest rs others of_rs in
      (
        here ++ later,
        read_resident-suc check process res mem rest r here later first shown same,
        (here, later, refl, runs, more),
      )

  -- What is shown with `showPhy` TRUE are the runs of pages in physical memory of the areas that are
  -- shown with `showPhy` FALSE, one after the other, with the same return values, if every area is of
  -- whole pages whose count fits an `int`.
  pub virtual_query_ex_full_phy-AreShown :
      (count_ioctl : ℕ → Result ℕ) (list_ioctl : List ℕ → Result Bool × List ℕ)
      (complete passed : Bool) (rs : List RegionInfo)
      → virtual_query_ex_full true count_ioctl list_ioctl process ≡ answer complete rs passed
      → All IsWhole rs
      → (qs : List RegionInfo) × (virtual_query_ex_full_phy check true count_ioctl list_ioctl
            process
          ≡ answer complete qs passed)
        × AreShown rs qs
  virtual_query_ex_full_phy-AreShown count_ioctl list_ioctl complete passed rs e whole =
      let (count, unfinish, there, counted, listed, positive, read, same) =
        answered_query count_ioctl list_ioctl process complete passed rs e in
      let (qs, found_parts, shown) =
        read_resident-AreShown (load (take 8 (listed_in list_ioctl process count)))
          (drop 8 (listed_in list_ioctl process count)) rs read whole in
      (
        qs,
        answer_again check process count unfinish complete passed qs count_ioctl list_ioctl there
            counted listed positive found_parts (same qs),
        shown,
      )
