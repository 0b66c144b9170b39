-- ===== src/Server/Snapshot/Modules.antt =====
-- The module list that CreateToolhelp32Snapshot of CEServer/api.cpp builds from the areas.
use rw_mem.Common.{
  ℕ, ◌+◌, ◌%◌, ◌^◌, ◌<◌, ◌≡◌, refl, ap, ◌≢◌, ◌⊎◌, inl, inr, Bool, true, false, not, ◌&&◌, Option,
  none, some, List, [], ◌∷◌, ◌++◌, if◌then◌else◌, str_eq, str_eq-eq, str_eq_comm, arith, Bool-cases,
  Option-cases,
}
use rw_mem.Server.Handle.{ModuleListEntry, RegionInfo}
use rw_mem.Server.Snapshot.{
  display_name, is_skipped, extend_module, add_region, add_regions, is_elf,
}

-- The size that the list gives for a module's name.
abbrev pub find_size : List ℕ → List ModuleListEntry → Option ℕ
find_size name [] = none
find_size name (m ∷ ms) =
    if str_eq m.module_name name then some m.module_size else find_size name ms

-- Whether an area belongs to the module of that name.
abbrev pub belongs : List ℕ → RegionInfo → Bool
belongs name r = not (is_skipped r) && str_eq (display_name r.name) name

-- The sizes of a module's areas, added up.
abbrev pub total_size : List ℕ → List RegionInfo → ℕ
total_size name [] = 0
total_size name (r ∷ rs) =
    if belongs name r then r.size + total_size name rs else total_size name rs

abbrev grow : Option ℕ → ℕ → Option ℕ
grow none size = none
grow (some b) size = some ((b + size) % 2 ^ 32)

str_eq_same : (a b n : List ℕ) → str_eq a b ≡ true → str_eq a n ≡ str_eq b n
str_eq_same a b n h = ap (λ (c : List ℕ). str_eq c n) (str_eq-eq a b h)

str_eq_apart : (a b n : List ℕ) → str_eq a b ≡ false → str_eq b n ≡ true → str_eq a n ≡ false
str_eq_apart a b n h k = let e = str_eq-eq b n k in rw (← e) h

extend_module-none :
    (name : List ℕ) (size : ℕ) (ms : List ModuleListEntry)
    → extend_module name size ms ≡ none
    → find_size name ms ≡ none
unfolding extend_module
extend_module-none name size [] e = refl
extend_module-none name size (m ∷ ms) e = ground (arith, extend_module-none name size ms)

extend_module-some :
    (name n : List ℕ) (size : ℕ) (ms : List ModuleListEntry) {ms' : List ModuleListEntry}
    → extend_module name size ms ≡ some ms'
    → find_size n ms' ≡ (if str_eq name n then grow (find_size n ms) size else find_size n ms)
unfolding extend_module
extend_module-some name n size [] e = cc
extend_module-some name n size (m ∷ ms) {ms'} e = elim (Bool-cases (str_eq m.module_name name)) [
  | inl y ↦ ground (arith, str_eq_same m.module_name name n)
  | inr miss ↦ elim (Option-cases (extend_module name size ms)) [
    | inl z ↦ absurd (ground arith)
    | inr (rest, z) ↦
        ground (
          arith,
          str_eq_apart m.module_name name n,
          extend_module-some name n size ms {ms' = rest} z,
        )
  ]
]

find_size_same :
    (a n : List ℕ) (ms : List ModuleListEntry) → str_eq a n ≡ true → find_size a ms ≡ find_size n ms
find_size_same a n ms h = ap (λ (c : List ℕ). find_size c ms) (str_eq-eq a n h)

extend_module-found :
    (name : List ℕ) (size : ℕ) (ms : List ModuleListEntry)
    → extend_module name size ms ≢ none
    → find_size name ms ≢ none
unfolding extend_module
extend_module-found name size [] e = absurd (e refl)
extend_module-found name size (m ∷ ms) e = ground (arith, extend_module-found name size ms)

find_size-append :
    (n : List ℕ) (ms : List ModuleListEntry) (m : ModuleListEntry)
    → find_size n ms ≡ none
    → find_size n (ms ++ (m ∷ [])) ≡ (if str_eq m.module_name n then some m.module_size else none)
find_size-append n [] m e = refl
find_size-append n (k ∷ ms) m e = ground (arith, find_size-append n ms m)

find_size-append_other :
    (n : List ℕ) (ms : List ModuleListEntry) (m : ModuleListEntry)
    → str_eq m.module_name n ≡ false
    → find_size n (ms ++ (m ∷ [])) ≡ find_size n ms
find_size-append_other n [] m e = ground arith
find_size-append_other n (k ∷ ms) m e = ground (arith, find_size-append_other n ms m)

-- No name stands twice in the list.
abbrev pub AreDistinct : List ModuleListEntry → Type 0
AreDistinct [] = Unit
AreDistinct (m ∷ ms) = (find_size m.module_name ms ≡ none) × AreDistinct ms

-- what one area does to the size under a name
module _ (read_magic : ℕ → Option ℕ) where
  abbrev after_region : List ℕ → RegionInfo → Option ℕ → Option ℕ
  after_region n r none =
      if belongs n r
      then (if is_elf (read_magic r.baseaddress) then some (r.size % 2 ^ 32) else none)
      else none
  after_region n r (some b) = if belongs n r then some ((b + r.size) % 2 ^ 32) else some b

  abbrev entry_of : RegionInfo → ModuleListEntry
  entry_of r = record {
    base_address = r.baseaddress;
    module_size = r.size % 2 ^ 32;
    module_name = display_name r.name;
  }

  find_size-add_region :
      (n : List ℕ) (r : RegionInfo) (ms : List ModuleListEntry)
      → find_size n (add_region read_magic r ms) ≡ after_region n r (find_size n ms)
  unfolding add_region
  find_size-add_region n r ms =
      elim (Option-cases (extend_module (display_name r.name) r.size ms)) [
        | inl z ↦ ground (
          arith,
          extend_module-none (display_name r.name) r.size ms z,
          find_size_same (display_name r.name) n ms,
          find_size-append n ms (entry_of r),
          find_size-append_other n ms (entry_of r),
        )
        | inr (ms', z) ↦ ground (
          arith,
          extend_module-some (display_name r.name) n r.size ms {ms' = ms'} z,
          extend_module-found (display_name r.name) r.size ms,
          find_size_same (display_name r.name) n ms,
        )
      ]

  -- Nothing for a name until an area of it begins with an ELF header; from there on the sizes of
  -- all its areas, added up as an `int`.
  abbrev pub expected_size : List ℕ → List RegionInfo → Option ℕ
  expected_size n [] = none
  expected_size n (r ∷ rs) =
      if belongs n r && is_elf (read_magic r.baseaddress)
      then some (total_size n (r ∷ rs) % 2 ^ 32)
      else expected_size n rs

  add_regions-some :
      (n : List ℕ) (rs : List RegionInfo) (ms : List ModuleListEntry) (b : ℕ)
      → b < 2 ^ 32
      → find_size n ms ≡ some b
      → find_size n (add_regions read_magic rs ms) ≡ some ((b + total_size n rs) % 2 ^ 32)
  unfolding add_regions
  add_regions-some n [] ms b h e = ground arith
  add_regions-some n (r ∷ rs) ms b h e = elim (Bool-cases (belongs n r)) [
    | inl y ↦ ground (
      arith,
      find_size-add_region n r ms,
      add_regions-some n rs (add_region read_magic r ms) ((b + r.size) % 2 ^ 32) (omega arith),
    )
    | inr z ↦
        ground (
          arith,
          find_size-add_region n r ms,
          add_regions-some n rs (add_region read_magic r ms) b h,
        )
  ]

  add_regions-none :
      (n : List ℕ) (rs : List RegionInfo) (ms : List ModuleListEntry)
      → find_size n ms ≡ none
      → find_size n (add_regions read_magic rs ms) ≡ expected_size n rs
  unfolding add_regions
  add_regions-none n [] ms e = e
  add_regions-none n (r ∷ rs) ms e = ground (
    arith,
    find_size-add_region n r ms,
    add_regions-none n rs (add_region read_magic r ms),
    add_regions-some n rs (add_region read_magic r ms) (r.size % 2 ^ 32) (omega arith),
  )

  extend_module-AreDistinct :
      (name : List ℕ) (size : ℕ) (ms : List ModuleListEntry) {ms' : List ModuleListEntry}
      → extend_module name size ms ≡ some ms'
      → AreDistinct ms
      → AreDistinct ms'
  unfolding extend_module
  extend_module-AreDistinct name size [] e d = absurd (ground arith)
  extend_module-AreDistinct name size (m ∷ ms) {ms'} e d =
      elim (Bool-cases (str_eq m.module_name name)) [
        | inl y ↦
            let q : ms' ≡ record m { module_size = (m.module_size + size) % 2 ^ 32 } ∷ ms =
              ground arith in
            rw q d
        | inr z ↦ elim (Option-cases (extend_module name size ms)) [
          | inl w ↦ absurd (ground arith)
          | inr (rest, w) ↦
              let q : ms' ≡ m ∷ rest = ground arith in
              rw q (
                ground (arith, extend_module-some name m.module_name size ms {ms' = rest} w),
                extend_module-AreDistinct name size ms w d.1,
              )
        ]
      ]

  append-AreDistinct :
      (ms : List ModuleListEntry) (k : ModuleListEntry)
      → find_size k.module_name ms ≡ none
      → AreDistinct ms
      → AreDistinct (ms ++ (k ∷ []))
  append-AreDistinct [] k e d = (refl, tt)
  append-AreDistinct (m ∷ ms) k e d = (
    ground
        (arith, find_size-append_other m.module_name ms k, str_eq_comm k.module_name m.module_name),
    append-AreDistinct ms k (ground arith) d.1,
  )

  add_region_cases :
      (r : RegionInfo) (ms : List ModuleListEntry)
      → (add_region read_magic r ms ≡ ms)
        ⊎ (extend_module (display_name r.name) r.size ms ≡ some (add_region read_magic r ms))
        ⊎ ((extend_module (display_name r.name) r.size ms ≡ none)
            × (add_region read_magic r ms ≡ ms ++ (entry_of r ∷ [])))
  unfolding add_region
  add_region_cases r ms = elim (Option-cases (extend_module (display_name r.name) r.size ms)) [
    | inl z ↦ ground arith
    | inr (ms', z) ↦ ground arith
  ]

  add_region-AreDistinct :
      (r : RegionInfo) (ms : List ModuleListEntry)
      → AreDistinct ms
      → AreDistinct (add_region read_magic r ms)
  add_region-AreDistinct r ms d = elim (add_region_cases r ms) [
    | inl same ↦ rw same d
    | inr (inl grown) ↦ extend_module-AreDistinct (display_name r.name) r.size ms grown d
    | inr (inr (z, added)) ↦ rw added (
        append-AreDistinct ms (entry_of r) (extend_module-none (display_name r.name) r.size ms z) d)
  ]

  add_regions-AreDistinct :
      (rs : List RegionInfo) (ms : List ModuleListEntry)
      → AreDistinct ms
      → AreDistinct (add_regions read_magic rs ms)
  unfolding add_regions
  add_regions-AreDistinct [] ms d = d
  add_regions-AreDistinct (r ∷ rs) ms d =
      add_regions-AreDistinct rs (add_region read_magic r ms) (add_region-AreDistinct r ms d)

  -- The module list has one entry for each name, and it has one exactly for the names of which an
  -- accessible, private, named area begins with a readable ELF header; its size is the sum, as a
  -- 32-bit integer, of the name's areas from the first such area on.
  pub add_regions_lem :
      (rs : List RegionInfo)
      → AreDistinct (add_regions read_magic rs [])
        × ((n : List ℕ) → find_size n (add_regions read_magic rs []) ≡ expected_size n rs)
  add_regions_lem rs = (add_regions-AreDistinct rs [] tt, λ n. add_regions-none n rs [] refl)
