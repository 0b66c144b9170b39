-- ===== src/Kernel/Maps/Layout.antt =====
-- How far the entries that rwMem/proc_maps.h writes reach, and how many there are.
use rw_mem.Common.{
  ◌≢◌, ℕ, zero, suc, ◌+◌, ◌-◌, ◌*◌, ◌≤◌, ◌<◌, ◌≡◌, refl, sym, ap, ◌∙◌, ◌⊎◌, inl, inr, Option-cases,
  true, false, List, [], ◌∷◌, ◌++◌, ltb, length, take, drop, replicate, store, arith, Bool-cases,
  length-append, length-take, length-drop, length-replicate, length-store, drop_all, drop-append_ge,
  drop-drop,
}
use rw_mem.Kernel.Maps.{
  Vma, Mm, Copy, stopped, wrote, copy_entry, maps_loop, copied, padded, area_name, path_max, flag,
  is_stack,
}

length-padded : (name : List ℕ) → length name ≤ path_max → length (padded name) ≡ path_max
length-padded name h = omega (
  arith,
  length-append name (replicate (path_max - length name) 0),
  length-replicate {A = ℕ} (path_max - length name) 0,
)

-- What one entry did to the memory: all of it is still there, and what lies past the entry is as
-- it was.
abbrev Keeps : ℕ → List ℕ → Copy → Type 0
Keeps size mem (stopped m) = (length m ≡ length mem) × (drop size m ≡ drop size mem)
Keeps size mem (wrote b r) =
    (length b + length r ≡ length mem) × (length b ≤ size) × (r ≡ drop size mem)

put-Keeps :
    (size n : ℕ) (pre mem : List ℕ)
    → length pre ≡ n
    → n ≤ size
    → n ≤ length mem
    → Keeps size mem (stopped (pre ++ drop n mem))
put-Keeps size n pre mem e small here = (
  omega (arith, length-append pre (drop n mem), length-drop n mem),
  drop-append_ge size pre (drop n mem) (omega arith)
      ∙ (drop-drop (size - length pre) n mem
          ∙ ap (λ (k : ℕ). drop k mem) {x = n + (size - length pre)} {y = size} (omega arith)),
)

copied_le : (len : ℕ) → copied len ≤ len
copied_le len = ground arith

copied_le_max : (len : ℕ) → 0 < len → copied len ≤ path_max
copied_le_max len h = ground arith

pub length_bounds : (v : Vma) → length (store 8 v.vm_start ++ store 8 v.vm_end) ≡ 16
length_bounds v = omega (arith, length-append (store 8 v.vm_start) (store 8 v.vm_end), length-store)

module _ (v : Vma) where
  abbrev pub head : List ℕ
  head =
      (store 8 v.vm_start ++ store 8 v.vm_end)
      ++ (flag v.vm_read ∷ flag v.vm_write ∷ flag v.vm_exec ∷ flag v.vm_mayshare ∷ [])

  pub length-head : length head ≡ 20
  length-head = omega (
    arith,
    length_bounds v,
    length-append (store 8 v.vm_start ++ store 8 v.vm_end)
        (flag v.vm_read ∷ flag v.vm_write ∷ flag v.vm_exec ∷ flag v.vm_mayshare ∷ []),
  )

wrote-Keeps :
    (len n : ℕ) (h p mem : List ℕ)
    → length h ≡ 20
    → length p ≡ n
    → n ≤ len
    → 20 + n ≤ length mem
    → Keeps
        (20 + len)
        mem
        (wrote ((h ++ p) ++ take (len - n) (drop (20 + n) mem)) (drop (20 + len) mem))
wrote-Keeps len n h p mem eh ep small here = (
  omega (
    arith,
    length-append (h ++ p) (take (len - n) (drop (20 + n) mem)),
    length-append h p,
    length-take (len - n) (drop (20 + n) mem),
    length-drop (20 + n) mem,
    length-drop (20 + len) mem,
  ),
  omega (
    arith,
    length-append (h ++ p) (take (len - n) (drop (20 + n) mem)),
    length-append h p,
    length-take (len - n) (drop (20 + n) mem),
  ),
  refl,
)

pub length-path :
    (mm : Mm) (v : Vma) (len : ℕ)
    → 0 < len
    → length (area_name mm v) ≤ path_max
    → length (take (copied len) (padded (area_name mm v))) ≡ copied len
length-path mm v len pos fits = omega (
  arith,
  length-take (copied len) (padded (area_name mm v)),
  length-padded (area_name mm v) fits,
  copied_le_max len pos,
)

pub copy_entry-Keeps :
    (mm : Mm) (v : Vma) (len : ℕ) (mem : List ℕ)
    → 0 < len
    → length (area_name mm v) ≤ path_max
    → Keeps (20 + len) mem (copy_entry mm v len mem)
unfolding copy_entry
copy_entry-Keeps mm v len mem pos fits = elim (Bool-cases (ltb (length mem) 8)) [
  | inl y ↦ rw y (refl, refl)
  | inr n8 ↦ rw n8 (elim (Bool-cases (ltb (length mem) 16)) [
    | inl y ↦ rw y (
        put-Keeps (20 + len) 8 (store 8 v.vm_start) mem (length-store 8 _) (omega arith)
          (ground arith))
    | inr n16 ↦ rw n16 (elim (Bool-cases (ltb (length mem) 20)) [
      | inl y ↦ rw y (put-Keeps (20 + len) 16 _ mem (length_bounds v) (omega arith) (ground arith))
      | inr n20 ↦ rw n20 (elim (Bool-cases (ltb (length mem) (20 + copied len))) [
        | inl y ↦
            rw y (put-Keeps (20 + len) 20 (head v) mem (length-head v) (omega arith) (ground arith))
        | inr n ↦ rw n (
            wrote-Keeps len (copied len) (head v) _ mem (length-head v)
              (length-path mm v len pos fits) (copied_le len) (ground arith))
      ])
    ])
  ])
]

-- A name and its terminator fit `new_path`.
pub area_name-lt : (mm : Mm) (v : Vma) → length (area_name mm v) < path_max
unfolding area_name is_stack
area_name-lt mm v = elim (Option-cases v.vm_file) [
  | inl e ↦ ground arith
  | inr (path, e) ↦ rw (e, area_name) (omega (arith, length-take (path_max - 1) path))
]

-- `have_pass` is set exactly if the loop counts fewer entries than there are areas.
pub maps_loop_pass :
    (mm : Mm) (vs : List Vma) (len room : ℕ) (mem : List ℕ)
    → let (n, m, pass) = maps_loop mm vs len room mem in
      ((pass ≡ false) × (n ≡ length vs)) ⊎ ((pass ≡ true) × (n < length vs))
unfolding maps_loop
maps_loop_pass mm [] len room mem = inl (refl, refl)
maps_loop_pass mm (v ∷ vs) len room mem =
    ground (arith, maps_loop_pass mm vs len (room - (20 + len)) (rest (copy_entry mm v len mem)))
  where
    rest : Copy → List ℕ
    rest (stopped m) = m
    rest (wrote b r) = r

drop_past : (n N : ℕ) (a b : List ℕ) → n ≤ N → drop n a ≡ drop n b → drop N a ≡ drop N b
drop_past n N a b h e =
    let back = λ (c : List ℕ). ap (λ (k : ℕ). drop k c) {x = n + (N - n)} {y = N} (omega arith) in
    sym (drop-drop (N - n) n a ∙ back a) ∙ (ap (drop (N - n)) e ∙ (drop-drop (N - n) n b ∙ back b))

drop-Keeps :
    (size room : ℕ) (mem b r m : List ℕ)
    → Keeps size mem (wrote b r)
    → size ≤ room
    → length m ≡ length r
    → drop (room - size) m ≡ drop (room - size) r
    → drop room (b ++ m) ≡ drop room mem
drop-Keeps size room mem b r m (total, small, e) more same rest =
    elim (Bool-cases (ltb (length b) size)) [
      | inl short ↦
          drop_all room (b ++ m) (
            ground
              (arith, length-append b m, length-drop size mem, ap (λ (t : List ℕ). length t) e))
          ∙ sym (
              drop_all room mem
                (ground (arith, length-drop size mem, ap (λ (t : List ℕ). length t) e)))
      | inr full ↦
          let whole : length b ≡ size = ground arith in
          drop-append_ge room b m (omega arith)
          ∙ (ap (λ (n : ℕ). drop n m) {x = room - length b} {y = room - size} (omega arith)
              ∙ (rest
                  ∙ (ap (drop (room - size)) e
                      ∙ (drop-drop (room - size) size mem
                          ∙ ap (λ (n : ℕ). drop n mem) {x = size + (room - size)} {y = room}
                              (omega arith)))))
    ]

Copy-cases :
    (c : Copy) → ((m : List ℕ) × (c ≡ stopped m)) ⊎ ((b : List ℕ) × (r : List ℕ) × (c ≡ wrote b r))
Copy-cases (stopped m) = inl (m, refl)
Copy-cases (wrote b r) = inr (b, r, refl)

module _ (mm : Mm) (v : Vma) (vs : List Vma) (len room : ℕ) (mem : List ℕ) where
  pub maps_loop_full : room ≡ 0 → maps_loop mm (v ∷ vs) len room mem ≡ (0, mem, true)
  unfolding maps_loop
  maps_loop_full e = ground arith

  pub maps_loop-stopped :
      (m : List ℕ)
      → room ≢ 0
      → copy_entry mm v len mem ≡ stopped m
      → maps_loop mm (v ∷ vs) len room mem ≡ (0, m, true)
  unfolding maps_loop
  maps_loop-stopped m n e = ground arith

  pub maps_loop_wrote :
      (b r : List ℕ)
      → room ≢ 0
      → copy_entry mm v len mem ≡ wrote b r
      → maps_loop mm (v ∷ vs) len room mem
        ≡ (let (n, m, pass) = maps_loop mm vs len (room - (20 + len)) r in (suc n, b ++ m, pass))
  unfolding maps_loop
  maps_loop_wrote b r n e = ground arith

-- With room for a whole number of entries the loop writes nothing past the room, and counts no
-- more entries than the room holds.
pub maps_loop-Keeps :
    (mm : Mm) (vs : List Vma) (len k room : ℕ) (mem : List ℕ)
    → 0 < len
    → room ≡ k * (20 + len)
    → let (n, m, pass) = maps_loop mm vs len room mem in
      (length m ≡ length mem) × (drop room m ≡ drop room mem) × (n ≤ k)
maps_loop-Keeps mm [] len k room mem pos e = unfold maps_loop in (refl, refl, omega arith)
maps_loop-Keeps mm (v ∷ vs) len zero room mem pos e =
    rw (maps_loop_full mm v vs len room mem (omega arith)) (refl, refl, omega arith)
maps_loop-Keeps mm (v ∷ vs) len (suc k) room mem pos e =
    elim (Copy-cases (copy_entry mm v len mem)) [
      | inl (m, c) ↦
          let (same, tail) : Keeps (20 + len) mem (stopped m) = rw c at kept in
          rw (maps_loop-stopped mm v vs len room mem m (grind arith) c)
            (same, drop_past (20 + len) room m mem (grind arith) tail, omega arith)
      | inr (b, r, c) ↦
          let whole : Keeps (20 + len) mem (wrote b r) = rw c at kept in
          let (same, tail, few) =
            maps_loop-Keeps mm vs len k (room - (20 + len)) r pos (grind arith) in
          rw (maps_loop_wrote mm v vs len room mem b r (grind arith) c) (
            omega (arith, length-append b (maps_loop mm vs len (room - (20 + len)) r).1, whole.0),
            drop-Keeps (20 + len) room mem b r _ whole (grind arith) same tail,
            omega arith,
          )
    ]
  where
    kept : Keeps (20 + len) mem (copy_entry mm v len mem)
    kept = copy_entry-Keeps mm v len mem pos (omega (arith, area_name-lt mm v))
