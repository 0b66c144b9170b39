-- ===== src/Server/Snapshot/Names.antt =====
-- How long the names are that CreateToolhelp32Snapshot of CEServer/api.cpp takes over from the areas that
-- the driver's client reads.
use rw_mem.Common.{
  ℕ, zero, suc, ◌≤◌, ◌≡◌, refl, ap, inl, inr, Option, some, List, [], ◌∷◌, map, ltb, length,
  length-take, take, drop, All, All-append, arith, Bool-cases, Option-cases, str_eq,
}
use rw_mem.Server.Handle.{ModuleListEntry, RegionInfo}
use rw_mem.Server.Driver.{c_string, read_entry, read_entries}
use rw_mem.Server.Snapshot.{
  display_name, plain_char, vdso_name, is_skipped, extend_module, add_region, add_regions, is_elf,
}

-- The names of areas and of modules that fit `char name[512]`.
abbrev pub AreNames : List RegionInfo → Type 0
AreNames = All (λ r. length r.name ≤ 511)

abbrev pub AreModuleNames : List ModuleListEntry → Type 0
AreModuleNames = All (λ me. length me.module_name ≤ 511)

length-c_string : (cs : List ℕ) → length (c_string cs) ≤ length cs
unfolding c_string
length-c_string [] = omega arith
length-c_string (c ∷ cs) = ground (arith, length-c_string cs)

read_entry-name :
    (mem rest : List ℕ) (r : RegionInfo) → read_entry mem ≡ some (r, rest) → length r.name ≤ 511
unfolding read_entry
read_entry-name mem rest r e = elim (Bool-cases (ltb (length mem) 532)) [
  | inl y ↦ absurd (ground arith)
  | inr n ↦
      let name = take 511 (drop 20 mem) in
      ground (arith, length-c_string name, length-take 511 (drop 20 mem))
]

pub read_entries-names :
    (n : ℕ) (mem : List ℕ) (rs : List RegionInfo) → read_entries n mem ≡ some rs → AreNames rs
unfolding read_entries
read_entries-names zero mem [] e = tt
read_entries-names zero mem (r ∷ rs) e = absurd (ground arith)
read_entries-names (suc n) mem rs e = elim (Option-cases (read_entry mem)) [
  | inl z ↦ absurd (ground arith)
  | inr ((r, rest), z) ↦ elim (Option-cases (read_entries n rest)) [
    | inl y ↦ absurd (ground arith)
    | inr (more, y) ↦ ground (arith, read_entry-name mem rest r z, read_entries-names n rest more y)
  ]
]

length-map_plain : (cs : List ℕ) → length (map plain_char cs) ≡ length cs
length-map_plain [] = refl
length-map_plain (c ∷ cs) = ap suc (length-map_plain cs)

length-display_name : (name : List ℕ) → length (display_name name) ≡ length name
unfolding display_name
length-display_name name = elim (Bool-cases (str_eq name vdso_name)) [
  | inl y ↦ rw y refl
  | inr n ↦ rw n (length-map_plain name)
]

extend_module-names :
    (name : List ℕ) (size : ℕ) (ms ms' : List ModuleListEntry)
    → extend_module name size ms ≡ some ms'
    → AreModuleNames ms
    → AreModuleNames ms'
unfolding extend_module
extend_module-names name size [] ms' e h = absurd (ground arith)
extend_module-names name size (m ∷ ms) ms' e h = elim (Bool-cases (str_eq m.module_name name)) [
  | inl y ↦ ground arith
  | inr n ↦ elim (Option-cases (extend_module name size ms)) [
    | inl z ↦ absurd (ground arith)
    | inr (rest, z) ↦ ground (arith, extend_module-names name size ms rest z h.1)
  ]
]

module _ (read_magic : ℕ → Option ℕ) where
  add_region-names :
      (r : RegionInfo) (ms : List ModuleListEntry)
      → length r.name ≤ 511
      → AreModuleNames ms
      → AreModuleNames (add_region read_magic r ms)
  unfolding add_region
  add_region-names r ms short h = elim (Bool-cases (is_skipped r)) [
    | inl y ↦ rw y h
    | inr n ↦ elim (Option-cases (extend_module (display_name r.name) r.size ms)) [
      | inr (ms', z) ↦ rw (n, z) (extend_module-names (display_name r.name) r.size ms ms' z h)
      | inl z ↦ elim (Bool-cases (is_elf (read_magic r.baseaddress))) [
        | inr x ↦ rw (n, z, x) h
        | inl x ↦
            rw (n, z, x)
              (All-append (λ me. length me.module_name ≤ 511) ms _ h
                (omega (arith, length-display_name r.name), tt))
      ]
    ]
  ]

  pub add_regions-names :
      (rs : List RegionInfo) (ms : List ModuleListEntry)
      → AreNames rs
      → AreModuleNames ms
      → AreModuleNames (add_regions read_magic rs ms)
  unfolding add_regions
  add_regions-names [] ms short h = h
  add_regions-names (r ∷ rs) ms (here, there) h =
      add_regions-names rs (add_region read_magic r ms) there (add_region-names r ms here h)
