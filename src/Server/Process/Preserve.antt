-- ===== src/Server/Process/Preserve.antt =====
-- The calls of CEServer/api.cpp that make and close handles keep the table and the heap in step.
use rw_mem.Common.{
  subst, erase_absent, ℕ, suc, ◌<◌, ◌^◌, ◌≡◌, refl, ◌≢◌, ◌⊎◌, inl, inr, none, some, List, ◌==◌,
  if◌then◌else◌, lookup, insert, erase, arith, Option-cases, Bool-cases, lookup-insert,
  lookup-erase, insert-Above, erase-Above, All,
}
use rw_mem.Server.Handle.{
  HandleType, HandleInfo, Server, Object, open_process, process_list, module_list, thread_list,
  update, fresh_handle, create_handle_from_pointer, get_handle_type, get_pointer_from_handle,
  remove_handle,
}
use rw_mem.Server.Handle.Laws.{fresh_handle-lookup, fresh_handle_bounds}
use rw_mem.Server.Process.{dealloc, new_handle, open_process_handle, close_handle, destroy, opened}
use rw_mem.Server.Process.Invariant.{IsWellFormed, kind}

-- The words that `std::random_device` draws.
abbrev pub AreWords : List ℕ → Type 0
AreWords = All (λ rd. rd < 2 ^ 32)

module _ (s : Server) (rds : List ℕ) (o : Object) (w : IsWellFormed s) (words : AreWords rds)
    {h : ℕ} (e : fresh_handle s.handles rds ≡ some h) where
  -- the state that `new_handle` leaves
  abbrev pub added : Server
  added = record {
    handles = insert h (record { p = s.next; type = kind o }) s.handles;
    heap = update s.heap s.next (some o);
    next = suc s.next;
  }

  pub added-lookup :
      (k : ℕ)
      → lookup k added.handles
        ≡ (if h == k then some (record { p = s.next; type = kind o }) else lookup k s.handles)
  added-lookup k = lookup-insert h k _ s.handles (fresh_handle-lookup s.handles rds e)

  -- no handle points to the new address yet
  pub unused : (k : ℕ) (i : HandleInfo) → lookup k s.handles ≡ some i → s.next ≢ i.p
  unused k i l q = ground (arith, w.live k i l, w.fresh i.p)

  -- what an entry of the new table is
  added-cases :
      (k : ℕ) (i : HandleInfo)
      → lookup k added.handles ≡ some i
      → ((k ≡ h) × (i ≡ record { p = s.next; type = kind o }))
        ⊎ ((lookup k s.handles ≡ some i) × (s.next ≢ i.p))
  added-cases k i l = elim (Bool-cases (h == k)) [
    | inl y ↦ inl (ground arith, ground (arith, added-lookup k))
    | inr n ↦
        let old : lookup k s.handles ≡ some i = ground (arith, added-lookup k) in
        inr (old, unused k i old)
  ]

  added-live :
      (k : ℕ) (i : HandleInfo)
      → lookup k added.handles ≡ some i
      → (x : Object) × (added.heap i.p ≡ some x) × (kind x ≡ i.type)
  added-live k i l = elim (added-cases k i l) [
    | inl (y, q) ↦ (o, ground arith, ground arith)
    | inr (old, n) ↦ let (x, hx, kx) = w.live k i old in (x, ground arith, kx)
  ]

  added-apart :
      (j k : ℕ) (a b : HandleInfo)
      → lookup j added.handles ≡ some a
      → lookup k added.handles ≡ some b
      → a.p ≡ b.p
      → j ≡ k
  added-apart j k a b la lb q =
      ground (arith, added-cases j a la, added-cases k b lb, w.apart j k a b)

  added-owned :
      (a : ℕ) (x : Object)
      → added.heap a ≡ some x
      → (k : ℕ) × (i : HandleInfo) × (lookup k added.handles ≡ some i) × (i.p ≡ a)
  added-owned a x q = elim (Bool-cases (s.next == a)) [
    | inl y ↦
        (h, record { p = s.next; type = kind o }, ground (arith, added-lookup h), ground arith)
    | inr n ↦
        let (k, i, l, r) = w.owned a x (ground arith) in
        (k, i, ground (arith, added-lookup k, fresh_handle-lookup s.handles rds e), r)
  ]

  pub added-IsWellFormed : IsWellFormed added
  added-IsWellFormed = record {
    sorted =
        insert-Above 9999 h _ s.handles (omega (arith, fresh_handle_bounds s.handles rds words e))
          w.sorted;
    live = added-live;
    apart = added-apart;
    owned = added-owned;
    fresh = λ a q. ground (arith, w.fresh a);
  }

-- the handle is there, with an object of its type
module _ (s : Server) (w : IsWellFormed s) (h : ℕ) (info : HandleInfo)
    (here : lookup h s.handles ≡ some info) where
  abbrev pub removed : Server
  removed = record s { handles = erase h s.handles; heap = update s.heap info.p none }

  removed-cases :
      (k : ℕ) (i : HandleInfo)
      → lookup k removed.handles ≡ some i
      → (lookup k s.handles ≡ some i) × (info.p ≢ i.p)
  removed-cases k i l =
      ground (arith, lookup-erase 9999 h k s.handles w.sorted, w.apart h k info i here)

  removed-live :
      (k : ℕ) (i : HandleInfo)
      → lookup k removed.handles ≡ some i
      → (x : Object) × (removed.heap i.p ≡ some x) × (kind x ≡ i.type)
  removed-live k i l =
      let (old, n) = removed-cases k i l in
      let (x, hx, kx) = w.live k i old in (x, ground arith, kx)

  removed-owned :
      (a : ℕ) (x : Object)
      → removed.heap a ≡ some x
      → (k : ℕ) × (i : HandleInfo) × (lookup k removed.handles ≡ some i) × (i.p ≡ a)
  removed-owned a x q =
      let (k, i, l, r) = w.owned a x (ground arith) in
      (k, i, ground (arith, lookup-erase 9999 h k s.handles w.sorted), r)

  pub removed-IsWellFormed : IsWellFormed removed
  removed-IsWellFormed = record {
    sorted = erase-Above 9999 h s.handles w.sorted;
    live = removed-live;
    apart = λ j k a b la lb q. w.apart j k a b (removed-cases j a la).0 (removed-cases k b lb).0 q;
    owned = removed-owned;
    fresh = λ a q. ground (arith, w.fresh a);
  }

-- what `new_handle` returns is `added`, with a handle that was free
pub new_handle-added :
    (s : Server) (rds : List ℕ) (o : Object) {h : ℕ} {t : Server} (w : IsWellFormed s)
    (words : AreWords rds)
    → new_handle s rds o (kind o) ≡ some (h, t)
    → (q : fresh_handle s.handles rds ≡ some h) × (t ≡ added s rds o w words q)
unfolding new_handle create_handle_from_pointer
new_handle-added s rds o {h} {t} w words e = elim (Option-cases (fresh_handle s.handles rds)) [
  | inl q ↦ absurd (ground arith)
  | inr (k, q) ↦ let q' : fresh_handle s.handles rds ≡ some h = ground arith in (q', ground arith)
]

-- `new` and `CreateHandleFromPointer` together keep the table and the heap in step.
pub new_handle-IsWellFormed :
    (s : Server) (rds : List ℕ) (o : Object) {h : ℕ} {t : Server}
    → IsWellFormed s
    → AreWords rds
    → new_handle s rds o (kind o) ≡ some (h, t)
    → IsWellFormed t
new_handle-IsWellFormed s rds o w words e =
    let (q, same) = new_handle-added s rds o w words e in
    rw same (added-IsWellFormed s rds o w words q)

open_process_handle_cases :
    (s : Server) (rds : List ℕ) (pid : ℕ) {h : ℕ} {t : Server}
    → open_process_handle s rds pid ≡ some (h, t)
    → (s ≡ t)
      ⊎ (new_handle s rds (open_process (opened pid)) HandleType.proces_handle ≡ some (h, t))
unfolding open_process_handle
open_process_handle_cases s rds pid e = ground arith

-- `OpenProcess` keeps the table and the heap in step, whether the process is open already, is
-- refused or gets a new handle.
pub open_process_handle-IsWellFormed :
    (s : Server) (rds : List ℕ) (pid : ℕ) {h : ℕ} {t : Server}
    → IsWellFormed s
    → AreWords rds
    → open_process_handle s rds pid ≡ some (h, t)
    → IsWellFormed t
open_process_handle-IsWellFormed s rds pid w words e =
    elim (open_process_handle_cases s rds pid e) [
      | inl same ↦ subst IsWellFormed same w
      | inr made ↦ new_handle-IsWellFormed s rds (open_process (opened pid)) w words made
    ]

destroy-kind :
    (x : Object) (p : ℕ) (s : Server) → destroy (kind x) (some x) p s ≡ some (dealloc s p)
destroy-kind (open_process o) p s = refl
destroy-kind (process_list l i) p s = refl
destroy-kind (module_list l i) p s = refl
destroy-kind (thread_list l) p s = refl

close_handle_known :
    (s : Server) (h : ℕ) (i : HandleInfo) (x : Object)
    → lookup h s.handles ≡ some i
    → s.heap i.p ≡ some x
    → kind x ≡ i.type
    → close_handle s h
      ≡ some (record s { handles = erase h s.handles; heap = update s.heap i.p none })
unfolding close_handle get_handle_type get_pointer_from_handle remove_handle dealloc
close_handle_known s h i x q hx kx =
    rw (q, close_handle, get_handle_type, get_pointer_from_handle, hx, ← kx, destroy-kind x)

close_handle_unknown : (s : Server) (h : ℕ) → lookup h s.handles ≡ none → close_handle s h ≡ some s
unfolding close_handle get_handle_type get_pointer_from_handle remove_handle
close_handle_unknown s h q =
    rw (q, close_handle, get_handle_type, get_pointer_from_handle, erase_absent h s.handles q)

-- On a well-formed server `CloseHandle` deletes no garbage, whatever the handle; it leaves a
-- well-formed server that does not know the handle and has all other handles unchanged.
pub close_handle_lem :
    (s : Server) (h : ℕ)
    → IsWellFormed s
    → (t : Server) × (close_handle s h ≡ some t)
      × IsWellFormed t
      × ((k : ℕ) → lookup k t.handles ≡ (if h == k then none else lookup k s.handles))
close_handle_lem s h w = elim (Option-cases (lookup h s.handles)) [
  | inl q ↦ (s, close_handle_unknown s h q, w, λ k. ground arith)
  | inr (i, q) ↦
      let (x, hx, kx) = w.live h i q in
      (
        removed s w h i q,
        close_handle_known s h i x q hx kx,
        removed-IsWellFormed s w h i q,
        λ k. lookup-erase 9999 h k s.handles w.sorted,
      )
]
