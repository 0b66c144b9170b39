-- ===== src/Server/Dispatch/Safety.antt =====
-- The commands of CEServer/main.cpp that use no memory that is not there, whatever the client sends.
use rw_mem.Common.{
  ℕ, zero, suc, ◌≡◌, ◌≢◌, refl, ap, ◌∙◌, inl, inr, Bool, true, false, Option, none, some, List,
  arith, Option-cases, Bool-cases, lookup,
}
use rw_mem.Server.Handle.{
  HandleType, Server, Object, open_process, process_list, module_list, thread_list, CeOpenProcess,
  RegionInfo, ModuleListEntry, ProcessInfo, get_handle_type, get_pointer_from_handle, is_process,
}
use rw_mem.Server.Process.{close_handle}
use rw_mem.Server.Process.Invariant.{IsWellFormed, kind}
use rw_mem.Server.Process.Preserve.{close_handle_lem}
use rw_mem.Server.Toolhelp.{
  module32_first, process32_first, is_module_snapshot, is_process_snapshot,
}
use rw_mem.Server.Query.{virtual_query_ex_full, virtual_query_ex, is_stale}
use rw_mem.Server.Driver.Memory.{Transfer, read_process_memory, driver_read_process_memory}
use rw_mem.Server.Process.{sign_extend}
use rw_mem.Server.Socket.{Return, count, zero_returned, minus_one, waiting, recvall}
use rw_mem.Server.Dispatch.{
  Connection, Dispatched, returned, exited, blocked, receive, called, on_return,
}

-- An object of the type that a handle is tested for.
process_kind :
    (x : Object) → is_process (kind x) ≡ true → (o : CeOpenProcess) × (x ≡ open_process o)
process_kind (open_process o) e = (o, refl)
process_kind (process_list l i) e = absurd (ground arith)
process_kind (module_list l i) e = absurd (ground arith)
process_kind (thread_list l) e = absurd (ground arith)

module_kind :
    (x : Object)
    → is_module_snapshot (kind x) ≡ true
    → (l : List ModuleListEntry) × (i : ℕ) × (x ≡ module_list l i)
module_kind (module_list l i) e = (l, i, refl)
module_kind (process_list l i) e = absurd (ground arith)
module_kind (open_process o) e = absurd (ground arith)
module_kind (thread_list l) e = absurd (ground arith)

list_kind :
    (x : Object)
    → is_process_snapshot (kind x) ≡ true
    → (l : List ProcessInfo) × (i : ℕ) × (x ≡ process_list l i)
list_kind (process_list l i) e = (l, i, refl)
list_kind (module_list l i) e = absurd (ground arith)
list_kind (open_process o) e = absurd (ground arith)
list_kind (thread_list l) e = absurd (ground arith)

module _ (s : Server) (w : IsWellFormed s) (h : ℕ) where
  -- A handle that passes a test that HandleType.empty does not stands for an object of its type.
  behind :
      (test : HandleType → Bool)
      → test HandleType.empty ≡ false
      → test (get_handle_type s h) ≡ true
      → (x : Object) × (s.heap (get_pointer_from_handle s h) ≡ some x) × (test (kind x) ≡ true)
  unfolding get_handle_type get_pointer_from_handle
  behind test e y = elim (Option-cases (lookup h s.handles)) [
    | inl z ↦ absurd (ground arith)
    | inr (info, z) ↦ let (x, hx, kx) = w.live h info z in (x, ground arith, ground arith)
  ]

  process_behind :
      is_process (get_handle_type s h) ≡ true
      → (o : CeOpenProcess) × (s.heap (get_pointer_from_handle s h) ≡ some (open_process o))
  process_behind y =
      let (x, hx, kx) = behind is_process refl y in
      let (o, same) = process_kind x kx in (o, hx ∙ ap some same)

  pub module32_first-some : module32_first s h ≢ none
  unfolding module32_first
  module32_first-some e = elim (Bool-cases (is_module_snapshot (get_handle_type s h))) [
    | inr n ↦ ground arith
    | inl y ↦
        let (x, hx, kx) = behind is_module_snapshot refl y in
        let (l, i, same) = module_kind x kx in let here = hx ∙ ap some same in ground arith
  ]

  pub process32_first-some : process32_first s h ≢ none
  unfolding process32_first
  process32_first-some e = elim (Bool-cases (is_process_snapshot (get_handle_type s h))) [
    | inr n ↦ ground arith
    | inl y ↦
        let (x, hx, kx) = behind is_process_snapshot refl y in
        let (l, i, same) = list_kind x kx in let here = hx ∙ ap some same in ground arith
  ]

  pub virtual_query_ex_full-some :
      (maps : ℕ → List RegionInfo) (now flags : ℕ) → virtual_query_ex_full maps now s h flags ≢ none
  unfolding virtual_query_ex_full
  virtual_query_ex_full-some maps now flags e =
      elim (Bool-cases (is_process (get_handle_type s h))) [
        | inr n ↦ ground arith
        | inl y ↦ let (o, here) = process_behind y in ground arith
      ]

  pub virtual_query_ex-some :
      (maps : ℕ → List RegionInfo) (now later address : ℕ)
      → virtual_query_ex maps now later s h address ≢ none
  unfolding virtual_query_ex
  virtual_query_ex-some maps now later address e =
      elim (Bool-cases (is_process (get_handle_type s h))) [
        | inr n ↦ ground arith
        | inl y ↦
            let (o, here) = process_behind y in
            elim (Bool-cases (is_stale now o)) [ inl a ↦ ground arith | inr a ↦ ground arith ]
      ]

  pub read_process_memory-some :
      (sys_read : List ℕ → ℕ → Transfer) (address : ℕ) (buffer : List ℕ) (size : ℕ)
      → read_process_memory sys_read s h address buffer size ≢ none
  unfolding read_process_memory
  read_process_memory-some sys_read address buffer size e =
      elim (Bool-cases (is_process (get_handle_type s h))) [
        | inr n ↦ ground arith
        | inl y ↦
            let (o, here) = process_behind y in
            let got =
              driver_read_process_memory sys_read o.driver_process_handle address buffer
                (sign_extend size) false in
            elim (Option-cases got.0) [ inl a ↦ ground arith | inr a ↦ ground arith ]
      ]

  pub close_handle-some : close_handle s h ≢ none
  close_handle-some e = let (t, closed, _, _) = close_handle_lem s h w in ground arith

-- A command that goes on does not fault.
pub data GoesOn : Dispatched → Type 0 where
  returned_on : {s : Server} {c : Connection} → GoesOn (returned s c)
  exited_on : {s : Server} {c : Connection} → GoesOn (exited s c)
  blocked_on : GoesOn blocked

on_return-GoesOn :
    (r : Return) (found : ℕ → Dispatched) (lost : Dispatched)
    → ((n : ℕ) → GoesOn (found n))
    → GoesOn lost
    → GoesOn (on_return r found lost)
on_return-GoesOn (count zero) found lost f l = l
on_return-GoesOn (count (suc n)) found lost f l = f (suc n)
on_return-GoesOn zero_returned found lost f l = l
on_return-GoesOn minus_one found lost f l = l
on_return-GoesOn waiting found lost f l = blocked_on

pub receive-GoesOn :
    (c : Connection) (size : ℕ) (found : List ℕ → Connection → Dispatched)
    (lost : Connection → Dispatched)
    → ((got : List ℕ) (c' : Connection) → GoesOn (found got c'))
    → ((c' : Connection) → GoesOn (lost c'))
    → GoesOn (receive c size found lost)
unfolding receive
receive-GoesOn c size found lost f l =
    let (r, got, rest) = recvall c.incoming size in
    let c' : Connection = record c { incoming = rest } in
    on_return-GoesOn r (λ n. found got c') (lost c') (λ n. f got c') (l c')

module _ {A : Type 0} where
  called-GoesOn :
      (x : Option A) (go_on : A → Dispatched)
      → x ≢ none
      → ((r : A) → GoesOn (go_on r))
      → GoesOn (called x go_on)
  unfolding called
  called-GoesOn none go_on n f = absurd (n refl)
  called-GoesOn (some r) go_on n f = f r

  pub receive_call :
      (c : Connection) (size : ℕ) (call : List ℕ → Option A)
      (go_on : List ℕ → Connection → A → Dispatched) (lost : Connection → Dispatched)
      → ((got : List ℕ) → call got ≢ none)
      → ((got : List ℕ) (c' : Connection) (r : A) → GoesOn (go_on got c' r))
      → ((c' : Connection) → GoesOn (lost c'))
      → GoesOn (receive c size (λ got c'. called (call got) (go_on got c')) lost)
  receive_call c size call go_on lost n f l =
      receive-GoesOn c size (λ got c'. called (call got) (go_on got c')) lost
        (λ got c'. called-GoesOn (call got) (go_on got c') (n got) (f got c')) l
