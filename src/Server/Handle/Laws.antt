-- ===== src/Server/Handle/Laws.antt =====
-- What CEServer/porthelp.cpp keeps true of the handle table.
use rw_mem.Common.{ℕ, ◌≤◌, ◌<◌, ◌^◌, ◌≡◌, none, some, List, [], ◌∷◌, lookup, arith, All}
use rw_mem.Server.Handle.{HandleInfo, draw_handle, fresh_handle}

draw_handle_bounds : (rd : ℕ) → rd < 2 ^ 32 → (10000 ≤ draw_handle rd) × (draw_handle rd ≤ 4304967)
unfolding draw_handle
draw_handle_bounds rd h = ground arith

pub fresh_handle-lookup :
    (m : List (ℕ × HandleInfo)) (rds : List ℕ) {h : ℕ}
    → fresh_handle m rds ≡ some h
    → lookup h m ≡ none
unfolding fresh_handle
fresh_handle-lookup m [] e = ground arith
fresh_handle-lookup m (rd ∷ rds) {h} e = ground (arith, fresh_handle-lookup m rds {h = h})

pub fresh_handle_bounds :
    (m : List (ℕ × HandleInfo)) (rds : List ℕ) {h : ℕ}
    → All (λ rd. rd < 2 ^ 32) rds
    → fresh_handle m rds ≡ some h
    → (10000 ≤ h) × (h ≤ 4304967)
unfolding fresh_handle
fresh_handle_bounds m [] w e = ground arith
fresh_handle_bounds m (rd ∷ rds) {h} w e =
    ground (arith, draw_handle_bounds rd w.0, fresh_handle_bounds m rds {h = h} w.1)
