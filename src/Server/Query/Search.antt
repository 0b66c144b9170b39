-- ===== src/Server/Query/Search.antt =====
-- What VirtualQueryEx of CEServer/api.cpp answers about an address.
use rw_mem.Common.{
  suc, ℕ, ◌+◌, ◌-◌, ◌*◌, ◌/◌, ◌%◌, ◌^◌, ◌≤◌, ◌<◌, ◌≡◌, refl, ◌⊎◌, inl, inr, Bool, true, false, some,
  List, [], ◌∷◌, ltb, leb, get_elem?, All, arith, Bool-cases,
}
use rw_mem.Server.Handle.{RegionInfo}
use rw_mem.Server.Query.{Answer, page_of, search_maps, answer_from, unset}
use rw_mem.Server.Driver.{page_noaccess}

abbrev pub stop_of : RegionInfo → ℕ
stop_of r = r.baseaddress + r.size

-- Areas as the kernel lists them: not empty, within 64 bits, and one behind the other.
abbrev pub AreAreas : ℕ → List RegionInfo → Type 0
AreAreas from [] = Unit
AreAreas from (r ∷ rs) =
    (from ≤ r.baseaddress) × (0 < r.size) × (stop_of r < 2 ^ 64) × AreAreas (stop_of r) rs

-- None of the list's areas holds an address from the page up to the bound.
abbrev pub IsFree : ℕ → ℕ → List RegionInfo → Type 0
IsFree from to = All (λ r. (stop_of r ≤ from) ⊎ (to ≤ r.baseaddress))

AreAreas-IsFree :
    (from to : ℕ) (rs : List RegionInfo) (b : ℕ) → AreAreas b rs → to ≤ b → IsFree from to rs
AreAreas-IsFree from to [] b a h = tt
AreAreas-IsFree from to (r ∷ rs) b a h =
    (inr (omega arith), AreAreas-IsFree from to rs (stop_of r) a.3 (omega arith))

-- The three things that an answer can say of the page.
abbrev pub Describes : ℕ → List RegionInfo → Bool × Answer → Type 0
Describes page rs (found, a) =
    ((found ≡ false) × (a ≡ unset page) × All (λ r. stop_of r ≤ page) rs)
    ⊎ ((i : ℕ) × (r : RegionInfo) × (get_elem? rs i ≡ some r)
        × (r.baseaddress ≤ page)
        × (page < stop_of r)
        × (found ≡ true)
        × (a ≡ record {
          baseaddress = page;
          protection = r.protection;
          size = some (stop_of r - page);
          type = some r.type;
          name = r.name;
        }))
    ⊎ ((i : ℕ) × (r : RegionInfo) × (get_elem? rs i ≡ some r)
        × (page < r.baseaddress)
        × IsFree page r.baseaddress rs
        × (found ≡ true)
        × (a ≡ record {
          baseaddress = page;
          protection = page_noaccess;
          size = some (r.baseaddress - page);
          type = some 0;
          name = r.name;
        }))

module _ (page : ℕ) (r : RegionInfo) (rs : List RegionInfo) (small : stop_of r < 2 ^ 64) where
  answer_past : stop_of r ≤ page → answer_from page (r ∷ rs) ≡ answer_from page rs
  unfolding search_maps
  answer_past h = ground arith

  answer_inside :
      page < stop_of r
      → r.baseaddress ≤ page
      → answer_from page (r ∷ rs) ≡ (
        true,
        record {
          baseaddress = page;
          protection = r.protection;
          size = some (stop_of r - page);
          type = some r.type;
          name = r.name;
        },
      )
  unfolding search_maps
  answer_inside h k = ground arith

  answer_before :
      page < r.baseaddress
      → answer_from page (r ∷ rs) ≡ (
        true,
        record {
          baseaddress = page;
          protection = page_noaccess;
          size = some (r.baseaddress - page);
          type = some 0;
          name = r.name;
        },
      )
  unfolding search_maps
  answer_before h = ground arith

  Describes-past :
      (x : Bool × Answer) → stop_of r ≤ page → Describes page rs x → Describes page (r ∷ rs) x
  Describes-past x h (inl (f, a, past)) = inl (f, a, (h, past))
  Describes-past x h (inr (inl (i, q, e, low, high, f, a))) =
      inr (inl (suc i, q, e, low, high, f, a))
  Describes-past x h (inr (inr (i, q, e, high, free, f, a))) =
      inr (inr (suc i, q, e, high, (inl h, free), f, a))

answer_from-Describes :
    (page : ℕ) (rs : List RegionInfo) (b : ℕ)
    → AreAreas b rs
    → Describes page rs (answer_from page rs)
answer_from-Describes page [] b a = unfold search_maps in inl (refl, refl, tt)
answer_from-Describes page (r ∷ rs) b a = elim (Bool-cases (ltb page (stop_of r))) [
  | inr past ↦ rw (answer_past page r rs a.2 (ground arith)) (
      Describes-past page r rs a.2 (answer_from page rs) (ground arith)
        (answer_from-Describes page rs (stop_of r) a.3))
  | inl before ↦ elim (Bool-cases (leb r.baseaddress page)) [
    | inl low ↦
        rw (answer_inside page r rs a.2 (ground arith) (ground arith))
          (inr (inl (0, r, refl, ground arith, ground arith, refl, refl)))
    | inr high ↦ rw (answer_before page r rs a.2 (ground arith)) (
        inr (
          inr (
            0,
            r,
            refl,
            ground arith,
            (
              inr (omega arith),
              AreAreas-IsFree page r.baseaddress rs (stop_of r) a.3 (omega arith),
            ),
            refl,
            refl,
          )))
  ]
]

-- On the list that the kernel module gives, VirtualQueryEx reports the page of the address. If an
-- area holds the page, it gives that area's protection and type, and the size up to the area's end.
-- If none does but one lies behind it, it gives the gap up to the next area, into which no area reaches:
-- the size up to that area's start, that area's name, and that it is not accessible. If all areas end
-- before it, nothing is found.
pub answer_lem :
    (address : ℕ) (rs : List RegionInfo)
    → AreAreas 0 rs
    → (page_of address ≤ address)
      × (address < page_of address + 4096)
      × (page_of address % 4096 ≡ 0)
      × Describes (page_of address) rs (answer_from (page_of address) rs)
unfolding page_of
answer_lem address rs a =
    (omega arith, omega arith, omega arith, answer_from-Describes (address / 4096 * 4096) rs 0 a)
