-- ===== src/Server/Process/Replace.antt =====
-- A call of CEServer/api.cpp that stores in the object behind a handle keeps the table and the heap in
-- step: the iterator of a snapshot, the areas of an opened process.
use rw_mem.Common.{ℕ, ◌≡◌, inl, inr, some, ◌==◌, lookup, arith, Bool-cases}
use rw_mem.Server.Handle.{HandleInfo, Server, Object, update}
use rw_mem.Server.Process.Invariant.{IsWellFormed, kind}

module _ (s : Server) (w : IsWellFormed s) (p : ℕ) (o x : Object) (here : s.heap p ≡ some o)
    (same : kind x ≡ kind o) where
  abbrev pub replaced : Server
  replaced = record s { heap = update s.heap p (some x) }

  replaced-live :
      (k : ℕ) (i : HandleInfo)
      → lookup k s.handles ≡ some i
      → (y : Object) × (replaced.heap i.p ≡ some y) × (kind y ≡ i.type)
  replaced-live k i l =
      let (y, hy, ky) = w.live k i l in
      elim (Bool-cases (p == i.p)) [
        | inl q ↦ (x, ground arith, ground arith)
        | inr n ↦ (y, ground arith, ky)
      ]

  replaced-owned :
      (a : ℕ) (y : Object)
      → replaced.heap a ≡ some y
      → (h : ℕ) × (i : HandleInfo) × (lookup h s.handles ≡ some i) × (i.p ≡ a)
  replaced-owned a y q = elim (Bool-cases (p == a)) [
    | inl e ↦ w.owned a o (ground arith)
    | inr n ↦ w.owned a y (ground arith)
  ]

  pub replaced-IsWellFormed : IsWellFormed replaced
  replaced-IsWellFormed = record {
    sorted = w.sorted;
    live = replaced-live;
    apart = w.apart;
    owned = replaced-owned;
    fresh = λ a q. ground (arith, w.fresh a, w.fresh p);
  }
