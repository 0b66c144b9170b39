-- ===== src/Server/Dispatch/Replies.antt =====
-- The replies of CEServer/main.cpp to a snapshot keep the handle table and the heap in step.
use rw_mem.Common.{
  ℕ, zero, suc, ◌≡◌, refl, subst, inl, inr, Option, none, some, List, [], ◌==◌, arith, Option-cases,
  Bool-cases,
}
use rw_mem.Server.Handle.{Server, ModuleListEntry}
use rw_mem.Server.Process.{close_handle}
use rw_mem.Server.Process.Invariant.{IsWellFormed}
use rw_mem.Server.Process.Preserve.{close_handle_lem}
use rw_mem.Server.Toolhelp.{module32_first, module32_next}
use rw_mem.Server.Socket.{Return, count, zero_returned, minus_one, waiting, recvall}
use rw_mem.Server.Dispatch.{
  Connection, Machine, Dispatched, returned, exited, blocked, faulted, receive, called, on_return,
}
use rw_mem.Server.Dispatch.Walks.{module32_first-IsWellFormed, module32_next-IsWellFormed}
use rw_mem.Server.Dispatch.Modules.{
  threads_reply, modules_reply, module_loop, stream_modules, closed_after, put_entry,
}

-- What a command that ends leaves is well formed.
pub data EndsWell : Dispatched → Type 0 where
  returned_well : {s : Server} {c : Connection} → IsWellFormed s → EndsWell (returned s c)
  exited_well : {s : Server} {c : Connection} → IsWellFormed s → EndsWell (exited s c)
  blocked_well : EndsWell blocked
  faulted_well : EndsWell faulted

pub on_return-EndsWell :
    (r : Return) (found : ℕ → Dispatched) (lost : Dispatched)
    → ((n : ℕ) → EndsWell (found n))
    → EndsWell lost
    → EndsWell (on_return r found lost)
on_return-EndsWell (count zero) found lost f l = l
on_return-EndsWell (count (suc n)) found lost f l = f (suc n)
on_return-EndsWell zero_returned found lost f l = l
on_return-EndsWell minus_one found lost f l = l
on_return-EndsWell waiting found lost f l = blocked_well

pub receive-EndsWell :
    (c : Connection) (size : ℕ) (found : List ℕ → Connection → Dispatched)
    (lost : Connection → Dispatched)
    → ((got : List ℕ) (c' : Connection) → EndsWell (found got c'))
    → ((c' : Connection) → EndsWell (lost c'))
    → EndsWell (receive c size found lost)
unfolding receive
receive-EndsWell c size found lost f l =
    let (r, got, rest) = recvall c.incoming size in
    let c' : Connection = record c { incoming = rest } in
    on_return-EndsWell r (λ n. found got c') (lost c') (λ n. f got c') (l c')

module _ {A : Type 0} where
  pub called-EndsWell :
      (x : Option A) (go_on : A → Dispatched)
      → ((r : A) → x ≡ some r → EndsWell (go_on r))
      → EndsWell (called x go_on)
  unfolding called
  called-EndsWell none go_on f = faulted_well
  called-EndsWell (some r) go_on f = f r refl

-- A handler that reads and then calls.
module _ {A : Type 0} where
  pub receive_then_call :
      (c : Connection) (size : ℕ) (call : List ℕ → Option A)
      (go_on : List ℕ → Connection → A → Dispatched) (lost : Connection → Dispatched)
      → ((got : List ℕ) (c' : Connection) (r : A) → call got ≡ some r → EndsWell (go_on got c' r))
      → ((c' : Connection) → EndsWell (lost c'))
      → EndsWell (receive c size (λ got c'. called (call got) (go_on got c')) lost)
  receive_then_call c size call go_on lost f l =
      receive-EndsWell c size (λ got c'. called (call got) (go_on got c')) lost
        (λ got c'. called-EndsWell (call got) (go_on got c') (f got c')) l

pub close_handle-IsWellFormed :
    (s t : Server) (h : ℕ) → close_handle s h ≡ some t → IsWellFormed s → IsWellFormed t
close_handle-IsWellFormed s t h e w =
    let (t', e', w', _) = close_handle_lem s h w in subst IsWellFormed (ground arith) w'

pub closed_after-EndsWell :
    (r : ℕ) (s : Server) (c : Connection) → IsWellFormed s → EndsWell (closed_after r s c)
unfolding closed_after
closed_after-EndsWell r s c w = elim (Bool-cases (r == 0)) [
  | inl y ↦ rw (y, closed_after) (returned_well w)
  | inr n ↦
      rw (n, closed_after)
        (called-EndsWell (close_handle s r) (λ t. returned t c)
          (λ t e. returned_well (close_handle-IsWellFormed s t r e w)))
]

pub module_loop-IsWellFormed :
    (fuel : ℕ) (s t : Server) (r : ℕ) (me : ModuleListEntry) (out out' : List ℕ × Connection)
    → module_loop fuel s r me out ≡ some (out', t)
    → IsWellFormed s
    → IsWellFormed t
unfolding module_loop
module_loop-IsWellFormed zero s t r me out out' e w = absurd (ground arith)
module_loop-IsWellFormed (suc fuel) s t r me out out' e w =
    elim (Option-cases (module32_next s r)) [
      | inl z ↦ absurd (ground arith)
      | inr ((next, s'), q) ↦
          let w' = module32_next-IsWellFormed s s' r q w in
          elim (Option-cases next) [
            | inl z ↦ subst IsWellFormed (ground arith) w'
            | inr (me', z) ↦
                module_loop-IsWellFormed fuel s' t r me' (put_entry me out) out' (ground arith) w'
          ]
    ]

pub stream_modules-IsWellFormed :
    (fuel : ℕ) (s t : Server) (r : ℕ) (out out' : List ℕ × Connection)
    → stream_modules fuel s r out ≡ some (out', t)
    → IsWellFormed s
    → IsWellFormed t
unfolding stream_modules
stream_modules-IsWellFormed fuel s t r out out' e w = elim (Bool-cases (r == 0)) [
  | inl y ↦ subst IsWellFormed (ground arith) w
  | inr n ↦ elim (Option-cases (module32_first s r)) [
    | inl z ↦ absurd (ground arith)
    | inr ((first, s'), q) ↦
        let w' = module32_first-IsWellFormed s s' r q w in
        elim (Option-cases first) [
          | inl z ↦ subst IsWellFormed (ground arith) w'
          | inr (me, z) ↦ module_loop-IsWellFormed fuel s' t r me out out' (ground arith) w'
        ]
  ]
]

pub modules_reply-EndsWell :
    (m : Machine) (r : ℕ) (s : Server) (c : Connection)
    → IsWellFormed s
    → EndsWell (modules_reply m r s c)
unfolding modules_reply
modules_reply-EndsWell m r s c w = called-EndsWell _ _ (λ (out, t) e.
    closed_after-EndsWell r t _ (stream_modules-IsWellFormed _ s t r ([], c) out e w))

pub threads_reply-EndsWell :
    (r : ℕ) (s : Server) (c : Connection) → IsWellFormed s → EndsWell (threads_reply r s c)
unfolding threads_reply
threads_reply-EndsWell r s c w = elim (Bool-cases (r == 0)) [
  | inl y ↦ rw (y, threads_reply) (returned_well w)
  | inr n ↦ rw (n, threads_reply) (called-EndsWell _ _ (λ tids e. closed_after-EndsWell r s _ w))
]
