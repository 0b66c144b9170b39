-- ===== src/Server/Driver/Entries.antt =====
-- An entry of the list that rwMem/proc_maps.h writes, as CEServer/MemoryReaderWriter37.hpp reads it.
use rw_mem.Common.{
  ltb-false, ℕ, zero, suc, ◌+◌, ◌-◌, ◌%◌, ◌^◌, ◌≤◌, ◌<◌, ◌≡◌, refl, sym, ap, ◌∙◌, Option, some,
  List, [], ◌∷◌, ◌++◌, ◌==◌, if◌then◌else◌, length, take, drop, replicate, store, load, arith,
  length-append, length-store, load-store, take-append_eq, drop-append_eq, drop-drop,
}
use rw_mem.Server.Handle.{RegionInfo}
use rw_mem.Server.Driver.{protection_of, c_string, read_entry, mem_mapped, mem_private}
use rw_mem.Kernel.Maps.{Vma, Mm, area_name, flag, padded}
use rw_mem.Kernel.Maps.Layout.{area_name-lt, length-path}

-- The protection that the server reports for an area, by what the area allows.
abbrev pub area_protection : Vma → ℕ
area_protection v =
    if v.vm_exec
    then (if v.vm_write then 64 else 32)
    else if v.vm_write
    then 4
    else if v.vm_read
    then 2
    else 1

-- The region that stands for an area.
abbrev pub region_of : Mm → Vma → RegionInfo
region_of mm v = record {
  baseaddress = v.vm_start;
  size = v.vm_end - v.vm_start;
  protection = area_protection v;
  type = if v.vm_mayshare then mem_mapped else mem_private;
  name = c_string (area_name mm v);
}

abbrev pub IsArea : Vma → Type 0
IsArea v = (v.vm_start ≤ v.vm_end) × (v.vm_end < 2 ^ 64)

pub c_string-zeros : (n k : ℕ) → c_string (take n (replicate k 0)) ≡ []
unfolding c_string
c_string-zeros zero k = refl
c_string-zeros (suc n) zero = refl
c_string-zeros (suc n) (suc k) = refl

pub c_string-padded :
    (name : List ℕ) (n k : ℕ)
    → length name ≤ n
    → c_string (take n (name ++ replicate k 0)) ≡ c_string name
unfolding c_string
c_string-padded [] n k h = c_string-zeros n k
c_string-padded (c ∷ cs) zero k h = absurd (omega arith)
c_string-padded (c ∷ cs) (suc n) k h = rw (c_string-padded cs n k (omega arith))

pub protection_of-flags :
    (v : Vma)
    → protection_of (flag v.vm_read) (flag v.vm_write) (flag v.vm_exec) ≡ area_protection v
unfolding protection_of
protection_of-flags v = ground arith

-- the parts of an entry, as the reader takes them from memory
pub read_entry_of :
    (mem s e p tail : List ℕ) (f₀ f₁ f₂ f₃ : ℕ)
    → take 8 mem ≡ s
    → take 8 (drop 8 mem) ≡ e
    → take 4 (drop 16 mem) ≡ f₀ ∷ f₁ ∷ f₂ ∷ f₃ ∷ []
    → take 511 (drop 20 mem) ≡ p
    → drop 532 mem ≡ tail
    → 532 ≤ length mem
    → read_entry mem
      ≡ some (
        record {
          baseaddress = load s;
          size = (load e + 2 ^ 64 - load s) % 2 ^ 64;
          protection = protection_of f₀ f₁ f₂;
          type = if f₃ == 1 then mem_mapped else mem_private;
          name = c_string p;
        },
        tail,
      )
unfolding read_entry
read_entry_of mem s e p tail f₀ f₁ f₂ f₃ hs he hf hp ht enough =
    rw (ltb-false (length mem) 532 enough, hs, he, hf, hp, ht) refl

module _ (s e f p tail : List ℕ) (ls : length s ≡ 8) (le : length e ≡ 8) (lf : length f ≡ 4) where
  abbrev pub laid : List ℕ
  laid = s ++ (e ++ (f ++ (p ++ tail)))

  pub at_end : drop 8 laid ≡ e ++ (f ++ (p ++ tail))
  at_end = drop-append_eq 8 s _ (sym ls)

  pub at_flags : drop 16 laid ≡ f ++ (p ++ tail)
  at_flags = sym (drop-drop 8 8 laid) ∙ (ap (drop 8) at_end ∙ drop-append_eq 8 e _ (sym le))

  pub at_path : drop 20 laid ≡ p ++ tail
  at_path = sym (drop-drop 4 16 laid) ∙ (ap (drop 4) at_flags ∙ drop-append_eq 4 f _ (sym lf))

  pub past : (n : ℕ) → length p ≡ n → drop (20 + n) laid ≡ tail
  past n lp = sym (drop-drop n 20 laid) ∙ (ap (drop n) at_path ∙ drop-append_eq n p _ (sym lp))

  pub length-laid : length laid ≡ 20 + (length p + length tail)
  length-laid = omega (
    arith,
    length-append s (e ++ (f ++ (p ++ tail))),
    length-append e (f ++ (p ++ tail)),
    length-append f (p ++ tail),
    length-append p tail,
  )

-- reading back an entry, whatever its last byte and what follows it
module _ (mm : Mm) (v : Vma) (a : IsArea v) where
  abbrev pub flags : List ℕ
  flags = flag v.vm_read ∷ flag v.vm_write ∷ flag v.vm_exec ∷ flag v.vm_mayshare ∷ []

  abbrev pub path : List ℕ
  path = take 511 (padded (area_name mm v))

  unfoldable pub entry : List ℕ → List ℕ
  entry tail =
      laid (store 8 v.vm_start) (store 8 v.vm_end) flags path tail (length-store 8 _)
        (length-store 8 _) refl

  pub length-of_path : length path ≡ 511
  length-of_path = length-path mm v 512 (omega arith) (omega (arith, area_name-lt mm v))

  pub type_of-flag :
      (if flag v.vm_mayshare == 1 then mem_mapped else mem_private)
      ≡ (if v.vm_mayshare then mem_mapped else mem_private)
  type_of-flag = ground arith

  pub read_entry-entry :
      (last : ℕ) (tail : List ℕ) → read_entry (entry (last ∷ tail)) ≡ some (region_of mm v, tail)
  unfolding entry
  read_entry-entry last tail =
      read_entry_of (entry (last ∷ tail)) (store 8 v.vm_start) (store 8 v.vm_end) path tail
        (flag v.vm_read) (flag v.vm_write) (flag v.vm_exec) (flag v.vm_mayshare)
        (take-append_eq 8 (store 8 v.vm_start) _ (sym (length-store 8 _)))
        (ap (take 8)
            (at_end _ _ flags path (last ∷ tail) (length-store 8 _) (length-store 8 _) refl)
          ∙ take-append_eq 8 (store 8 v.vm_end) _ (sym (length-store 8 _)))
        (ap (take 4)
          (at_flags _ _ flags path (last ∷ tail) (length-store 8 _) (length-store 8 _) refl))
        (ap (take 511)
            (at_path _ _ flags path (last ∷ tail) (length-store 8 _) (length-store 8 _) refl)
          ∙ take-append_eq 511 path _ (sym length-of_path))
        (sym (drop-drop 1 531 (entry (last ∷ tail)))
          ∙ ap (drop 1) (
              past _ _ flags path (last ∷ tail) (length-store 8 _) (length-store 8 _) refl 511
                length-of_path))
        (omega (
          arith,
          length-laid _ _ flags path (last ∷ tail) (length-store 8 v.vm_start)
              (length-store 8 v.vm_end) refl,
          length-of_path,
        ))
      ∙ fields
    where
      size_eq : (v.vm_end + 2 ^ 64 - v.vm_start) % 2 ^ 64 ≡ v.vm_end - v.vm_start
      size_eq = omega arith

      fields :
          ◌≡◌ {A = Option (RegionInfo × List ℕ)}
            (some (
              record {
                baseaddress = load (store 8 v.vm_start);
                size = (load (store 8 v.vm_end) + 2 ^ 64 - load (store 8 v.vm_start)) % 2 ^ 64;
                protection = protection_of (flag v.vm_read) (flag v.vm_write) (flag v.vm_exec);
                type = if flag v.vm_mayshare == 1 then mem_mapped else mem_private;
                name = c_string path;
              },
              tail,
            ))
            (some (region_of mm v, tail))
      fields =
          rw
            (
              load-store 8 v.vm_start (omega arith),
              load-store 8 v.vm_end (omega arith),
              size_eq,
              protection_of-flags v,
              type_of-flag,
              c_string-padded (area_name mm v) 511 (512 - length (area_name mm v))
                  (omega (arith, area_name-lt mm v)),
            )
            refl

pub take_one : (xs : List ℕ) → 0 < length xs → (x : ℕ) × (take 1 xs ≡ x ∷ [])
take_one [] h = absurd (omega arith)
take_one (x ∷ xs) h = (x, refl)

-- with room for it, an entry is copied whole
