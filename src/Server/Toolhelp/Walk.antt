-- ===== src/Server/Toolhelp/Walk.antt =====
-- Walking a module snapshot of CEServer/api.cpp to its end.
use rw_mem.Common.{
  ap₂, fun_ext, inl, inr, drop_all, append-eq_nil, ℕ, zero, suc, ◌+◌, ◌≤◌, ◌<◌, ◌≡◌, refl, sym, ap,
  ◌∙◌, ◌≢◌, Option, none, some, List, [], ◌∷◌, length, get_elem?, drop, lookup, arith, Option-cases,
}
use rw_mem.Server.Handle.{
  HandleType, HandleInfo, Object, module_list, Server, ModuleListEntry, update, get_handle_type,
  get_pointer_from_handle,
}
use rw_mem.Server.Toolhelp.{module32_first, module32_next, walk, walk_from, put}

module _ (h : ℕ) (info : HandleInfo) (l : List ModuleListEntry) where
  -- the handle stands for the list, with the iterator behind `i` entries
  abbrev pub StandsAt : Server → ℕ → Type 0
  StandsAt s i =
      (lookup h s.handles ≡ some info)
      × (info.type ≡ HandleType.ths_module)
      × (s.heap info.p ≡ some (module_list l i))

  next_lem :
      (s : Server) (i : ℕ)
      → StandsAt s i
      → i < length l
      → module32_next s h ≡ some (get_elem? l (i + 1), put s info.p (module_list l (i + 1)))
  unfolding module32_next get_handle_type get_pointer_from_handle
  next_lem s i (a, b, c) lt = ground arith

  drop-get_elem? :
      (xs : List ModuleListEntry) (i : ℕ) (m : ModuleListEntry)
      → get_elem? xs i ≡ some m
      → (drop i xs ≡ m ∷ drop (suc i) xs) × (i < length xs)
  drop-get_elem? [] i m e = absurd (ground arith)
  drop-get_elem? (x ∷ xs) zero m e = (ground arith, omega arith)
  drop-get_elem? (x ∷ xs) (suc i) m e = let (a, b) = drop-get_elem? xs i m e in (a, omega arith)

  get_elem?-none : (xs : List ModuleListEntry) (i : ℕ) → get_elem? xs i ≡ none → length xs ≤ i
  get_elem?-none [] i e = omega arith
  get_elem?-none (x ∷ xs) zero e = absurd (ground arith)
  get_elem?-none (x ∷ xs) (suc i) e = omega (arith, get_elem?-none xs i e)

  put_again : (s : Server) (p : ℕ) (a b : Object) → put (put s p a) p b ≡ put s p b
  put_again s p a b = λ i. record s { heap = fun_ext cells i }
    where
      cells : (c : ℕ) → update (update s.heap p (some a)) p (some b) c ≡ update s.heap p (some b) c
      cells c = ground arith

  put-StandsAt : (s : Server) (i j : ℕ) → StandsAt s i → StandsAt (put s info.p (module_list l j)) j
  put-StandsAt s i j (a, b, c) = (a, b, ground arith)

  walk_from_stop :
      (fuel : ℕ) (s s' : Server) (me : ModuleListEntry)
      → module32_next s h ≡ some (none, s')
      → walk_from (suc fuel) s h me ≡ some (me ∷ [], s')
  unfolding walk_from
  walk_from_stop fuel s s' me e = ground arith

  walk_from_more :
      (fuel : ℕ) (s s' s'' : Server) (me me' : ModuleListEntry) (mes : List ModuleListEntry)
      → module32_next s h ≡ some (some me', s')
      → walk_from fuel s' h me' ≡ some (mes, s'')
      → walk_from (suc fuel) s h me ≡ some (me ∷ mes, s'')
  unfolding walk_from
  walk_from_more fuel s s' s'' me me' mes e f = ground arith

  walk_from_lem :
      (fuel i : ℕ) (s : Server) (me : ModuleListEntry)
      → StandsAt s i
      → get_elem? l i ≡ some me
      → length l ≤ fuel + i
      → walk_from fuel s h me ≡ some (drop i l, put s info.p (module_list l (length l)))
  unfolding walk_from
  walk_from_lem zero i s me at e enough = absurd (omega (arith, (drop-get_elem? l i me e).1))
  walk_from_lem (suc fuel) i s me at e enough = elim (Option-cases (get_elem? l (suc i))) [
    | inl z ↦
        let last : i + 1 ≡ length l =
          omega (arith, (drop-get_elem? l i me e).1, get_elem?-none l (suc i) z) in
        let next : get_elem? l (i + 1) ≡ none =
          ap (get_elem? l) {x = i + 1} {y = suc i} (omega arith) ∙ z in
        let rest : drop (suc i) l ≡ [] = drop_all (suc i) l (omega arith) in
        let here : drop i l ≡ me ∷ [] =
          (drop-get_elem? l i me e).0 ∙ ap (λ (t : List ModuleListEntry). me ∷ t) rest in
        rw (here, ← last)
          (walk_from_stop fuel s (put s info.p (module_list l (i + 1))) me
            (rw (next_lem s i at (drop-get_elem? l i me e).1, next) refl))
    | inr (me', z) ↦
        let next : get_elem? l (i + 1) ≡ some me' =
          ap (get_elem? l) {x = i + 1} {y = suc i} (omega arith) ∙ z in
        let ih =
          walk_from_lem fuel (i + 1) (put s info.p (module_list l (i + 1))) me'
            (put-StandsAt s i (i + 1) at) next (omega arith) in
        let later : drop (i + 1) l ≡ drop (suc i) l =
          ap (λ (k : ℕ). drop k l) {x = i + 1} {y = suc i} (omega arith) in
        rw ((drop-get_elem? l i me e).0, ← later)
          (walk_from_more fuel s (put s info.p (module_list l (i + 1))) _ me me' _
            (rw (next_lem s i at (drop-get_elem? l i me e).1, next) refl)
            (rw (put_again s info.p (module_list l (i + 1)) (module_list l (length l))) at ih))
  ]

  first_lem :
      (s : Server) (i : ℕ)
      → StandsAt s i
      → module32_first s h ≡ some (get_elem? l 0, put s info.p (module_list l 0))
  unfolding module32_first get_handle_type get_pointer_from_handle
  first_lem s i (a, b, c) = ground arith

  walk_stop :
      (fuel : ℕ) (s s' : Server)
      → h ≢ 0
      → module32_first s h ≡ some (none, s')
      → walk fuel s h ≡ some ([], s')
  unfolding walk
  walk_stop fuel s s' nz e = ground arith

  walk_more :
      (fuel : ℕ) (s s' s'' : Server)
      → h ≢ 0
      → (me : ModuleListEntry) (mes : List ModuleListEntry)
      → module32_first s h ≡ some (some me, s')
      → walk_from fuel s' h me ≡ some (mes, s'')
      → walk fuel s h ≡ some (mes, s'')
  unfolding walk
  walk_more fuel s s' s'' nz me mes e f = ground arith

  -- Module32First and then Module32Next, as long as they return TRUE, give the snapshot's modules
  -- once each and in order, wherever the iterator stood before, and never step past the end.
  pub walk_lem :
      (s : Server) (i fuel : ℕ)
      → h ≢ 0
      → StandsAt s i
      → length l ≤ fuel
      → walk fuel s h ≡ some (l, put s info.p (module_list l (length l)))
  walk_lem s i fuel nz at enough = elim (Option-cases (get_elem? l 0)) [
    | inl z ↦
        let none_left : 0 ≡ length l = omega (arith, get_elem?-none l 0 z) in
        let nil : l ≡ [] = append-eq_nil l (omega arith) in
        walk_stop fuel s (put s info.p (module_list l 0)) nz (
          first_lem s i at
          ∙ ap (λ (r : Option ModuleListEntry). some (r, put s info.p (module_list l 0))) z)
        ∙ ap₂ (λ (r : List ModuleListEntry) (k : ℕ). some (r, put s info.p (module_list l k)))
            (sym nil) none_left
    | inr (me, z) ↦
        let ih =
          walk_from_lem fuel 0 (put s info.p (module_list l 0)) me (put-StandsAt s i 0 at) z
            (omega arith) in
        walk_more fuel s (put s info.p (module_list l 0)) _ nz me l
          (first_lem s i at
            ∙ ap (λ (r : Option ModuleListEntry). some (r, put s info.p (module_list l 0))) z)
          (rw (put_again s info.p (module_list l 0) (module_list l (length l))) at ih)
  ]
