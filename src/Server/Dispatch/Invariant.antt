-- ===== src/Server/Dispatch/Invariant.antt =====
-- Every command of CEServer/main.cpp keeps the handle table and the heap in step.
use rw_mem.Common.{
  ℕ, ◌-◌, ◌^◌, ltb, leb, Bool, true, false, inl, inr, List, [], ◌∷◌, ◌==◌, if◌then◌else◌,
  Option-cases, Bool-cases, load, store, All,
}
use rw_mem.Server.Handle.{Server}
use rw_mem.Server.Process.Invariant.{IsWellFormed}
use rw_mem.Server.Process.Preserve.{AreWords, open_process_handle-IsWellFormed}
use rw_mem.Server.Snapshot.{has_flag}
use rw_mem.Server.Socket.{Return, count, zero_returned, minus_one, waiting, recvall}
use rw_mem.Server.Driver.Memory.{write_process_memory}
use rw_mem.Server.Dispatch.{
  Connection, Machine, Dispatched, returned, exited, blocked, faulted, receive, called, field, send,
  close,
}
use rw_mem.Server.Dispatch.Walks.{
  module32_first-IsWellFormed, module32_next-IsWellFormed, process32_first-IsWellFormed,
  process32_next-IsWellFormed,
}
use rw_mem.Server.Dispatch.Calls.{
  virtual_query_ex_full-IsWellFormed, virtual_query_ex-IsWellFormed,
  create_toolhelp32_snapshot-IsWellFormed,
}
use rw_mem.Server.Dispatch.Command.{
  get_version, get_architecture, close_handle_command, snapshot_command, process32_command,
  module32_command, open_process_command, read_command, write_command, query_full_command,
  query_command, symbol_list_command, aob_scan_command, int_size,
}
use rw_mem.Server.Dispatch.Modules.{snapshot_ex_command, threads_reply, modules_reply}
use rw_mem.Server.Dispatch.Loop.{
  Command, run, dispatch_command, command_of, Thread, finished, program_exited, waits, crashed,
  runs, after, round, connection_thread,
}
use rw_mem.Server.Dispatch.Replies.{
  EndsWell, returned_well, exited_well, faulted_well, receive-EndsWell, receive_then_call,
  close_handle-IsWellFormed, modules_reply-EndsWell, threads_reply-EndsWell,
}

test_EndsWell :
    {d e : Dispatched} (b : Bool) → EndsWell d → EndsWell e → EndsWell (if b then d else e)
test_EndsWell true x y = x
test_EndsWell false x y = y

module _ (m : Machine) (words : AreWords m.rands) (s : Server) (w : IsWellFormed s) where
  write_command-EndsWell : (c : Connection) → EndsWell (write_command m s c)
  unfolding write_command
  write_command-EndsWell c =
      receive-EndsWell c 16 _ _ (λ got c'. writes got c' (field 12 4 got)) (λ c'. returned_well w)
    where
      wrote :
          (got : List ℕ) (c' : Connection) (size : ℕ)
          → EndsWell (
              receive c'
                (int_size size)
                (λ bytes c''.
                  called
                    (write_process_memory m.sys_write s (field 0 4 got) (field 4 8 got) bytes size)
                    (λ written. returned s (send (store 4 written) c'')))
                (λ c''. returned s c''))
      wrote got c' size =
          receive_then_call c' (int_size size)
            (λ bytes. write_process_memory m.sys_write s (field 0 4 got) (field 4 8 got) bytes size)
            (λ bytes c'' written. returned s (send (store 4 written) c'')) (λ c''. returned s c'')
            (λ bytes c'' r e. returned_well w) (λ c''. returned_well w)

      writes :
          (got : List ℕ) (c' : Connection) (size : ℕ)
          → EndsWell (
              if size == 0
              then returned s (send (store 4 0) c')
              else receive c'
                  (int_size size)
                  (λ bytes c''.
                    called
                      (write_process_memory m.sys_write s
                        (field 0 4 got)
                        (field 4 8 got)
                        bytes
                        size)
                      (λ written. returned s (send (store 4 written) c'')))
                  (λ c''. returned s c''))
      writes got c' size = elim (Bool-cases (size == 0)) [
        | inl y ↦ rw (y) (returned_well w)
        | inr n ↦ rw (n) (wrote got c' size)
      ]

  snapshot_ex_command-EndsWell : (c : Connection) → EndsWell (snapshot_ex_command m s c)
  unfolding snapshot_ex_command
  snapshot_ex_command-EndsWell c =
      receive_then_call c 8 _ _ _
        (λ got c' (r, t) e.
          replies (field 0 4 got) r t c'
            (create_toolhelp32_snapshot-IsWellFormed m.env s m.rands _ _ w words e))
        (λ c'. returned_well w)
    where
      replies :
          (flags r : ℕ) (t : Server) (c' : Connection)
          → IsWellFormed t
          → EndsWell (
              if has_flag flags 4
              then threads_reply r t c'
              else if has_flag flags 8
              then modules_reply m r t c'
              else returned t (send (store 4 r) c'))
      replies flags r t c' w' = elim (Bool-cases (has_flag flags 4)) [
        | inl y ↦ rw (y) (threads_reply-EndsWell r t c' w')
        | inr n ↦ elim (Bool-cases (has_flag flags 8)) [
          | inl y ↦ rw (n, y) (modules_reply-EndsWell m r t c' w')
          | inr z ↦ rw (n, z) (returned_well w')
        ]
      ]

  run-EndsWell : (command : Command) (c : Connection) → EndsWell (run command m s c)
  unfolding run get_version get_architecture close_handle_command snapshot_command process32_command
      module32_command open_process_command read_command query_full_command query_command
      symbol_list_command aob_scan_command
  run-EndsWell Command.getversion c = returned_well w
  run-EndsWell Command.closeconnection c = returned_well w
  run-EndsWell Command.terminateserver c = exited_well w
  run-EndsWell Command.openprocess c =
      receive_then_call c 4 _ _ _
        (λ got c' (r, t) e.
          returned_well (open_process_handle-IsWellFormed s m.rands (load got) w words e))
        (λ c'. returned_well w)
  run-EndsWell Command.createtoolhelp32snapshot c =
      receive_then_call c 8 _ _ _
        (λ got c' (r, t) e.
          returned_well (create_toolhelp32_snapshot-IsWellFormed m.env s m.rands _ _ w words e))
        (λ c'. returned_well w)
  run-EndsWell Command.process32first c =
      receive_then_call c 4 _ _ _
        (λ got c' (r, t) e. returned_well (process32_first-IsWellFormed s t (load got) e w))
        (λ c'. returned_well w)
  run-EndsWell Command.process32next c =
      receive_then_call c 4 _ _ _
        (λ got c' (r, t) e. returned_well (process32_next-IsWellFormed s t (load got) e w))
        (λ c'. returned_well w)
  run-EndsWell Command.module32first c =
      receive_then_call c 4 _ _ _
        (λ got c' (r, t) e. returned_well (module32_first-IsWellFormed s t (load got) e w))
        (λ c'. returned_well w)
  run-EndsWell Command.module32next c =
      receive_then_call c 4 _ _ _
        (λ got c' (r, t) e. returned_well (module32_next-IsWellFormed s t (load got) e w))
        (λ c'. returned_well w)
  run-EndsWell Command.closehandle c =
      receive_then_call c 4 _ _ _
        (λ got c' t e. returned_well (close_handle-IsWellFormed s t (load got) e w))
        (λ c'. returned_well w)
  run-EndsWell Command.virtualqueryex c =
      receive_then_call c 12 _ _ _
        (λ got c' (r, t) e.
          returned_well (virtual_query_ex-IsWellFormed m.physical_maps m.now m.later s t _ _ e w))
        (λ c'. returned_well w)
  run-EndsWell Command.getregioninfo c =
      receive_then_call c 12 _ _ _
        (λ got c' (r, t) e.
          returned_well (virtual_query_ex-IsWellFormed m.physical_maps m.now m.later s t _ _ e w))
        (λ c'. returned_well w)
  run-EndsWell Command.readprocessmemory c =
      receive_then_call c 17 _ _ _ (λ got c' r e. returned_well w) (λ c'. returned_well w)
  run-EndsWell Command.writeprocessmemory c = write_command-EndsWell c
  run-EndsWell Command.getarchitecture c =
      receive-EndsWell c 4 _ _ (λ got c'. returned_well w) (λ c'. returned_well w)
  run-EndsWell Command.getsymbollistfromfile c =
      receive-EndsWell c 4 _ _
        (λ got c'. test_EndsWell (load got == 2 ^ 32 - 1) faulted_well (
          receive-EndsWell c' _ _ _
            (λ path c''. test_EndsWell (ltb (load got) 4) faulted_well (returned_well w))
            (λ c''. returned_well w)))
        (λ c'. returned_well w)
  run-EndsWell Command.virtualqueryexfull c =
      receive_then_call c 5 _ _ _
        (λ got c' (r, t) e.
          returned_well (virtual_query_ex_full-IsWellFormed m.physical_maps m.now s t _ _ e w))
        (λ c'. returned_well w)
  run-EndsWell Command.getabi c = returned_well w
  run-EndsWell Command.createtoolhelp32snapshotex c = snapshot_ex_command-EndsWell c
  run-EndsWell Command.getoptions c = returned_well w
  run-EndsWell Command.isandroid c = returned_well w
  run-EndsWell Command.aobscan c =
      receive-EndsWell c 32 _ _
        (λ got c'.
          receive-EndsWell c' _ _ _
            (λ bytes c''.
              test_EndsWell (leb (2 ^ 31) (field 28 4 got)) faulted_well (returned_well w))
            (λ c''. returned_well w))
        (λ c'. returned_well w)

-- Whatever command a client sends and whatever arrives behind it, a command that ends leaves every
-- handle with a live object of its type and every live object with one handle.
pub dispatch_command-EndsWell :
    (m : Machine) (s : Server) (code : ℕ) (c : Connection)
    → AreWords m.rands
    → IsWellFormed s
    → EndsWell (dispatch_command m s code c)
unfolding dispatch_command
dispatch_command-EndsWell m s code c words w = elim (Option-cases (command_of code)) [
  | inl z ↦ rw (z, dispatch_command) (returned_well w)
  | inr (command, z) ↦ rw (z, dispatch_command) (run-EndsWell m words s w command c)
]

-- What a connection's thread leaves is well formed.
pub data StaysWell : Thread → Type 0 where
  finished_well : {s : Server} {c : Connection} → IsWellFormed s → StaysWell (finished s c)
  program_exited_well :
      {s : Server} {c : Connection} → IsWellFormed s → StaysWell (program_exited s c)
  runs_well : {s : Server} {c : Connection} → IsWellFormed s → StaysWell (runs s c)
  waits_well : StaysWell waits
  crashed_well : StaysWell crashed

after-StaysWell : (d : Dispatched) → EndsWell d → StaysWell (after d)
after-StaysWell (returned s c) (returned_well w) = runs_well w
after-StaysWell (exited s c) (exited_well w) = program_exited_well w
after-StaysWell blocked w = waits_well
after-StaysWell faulted w = crashed_well

round-StaysWell :
    (m : Machine) (s : Server) (c : Connection)
    → AreWords m.rands
    → IsWellFormed s
    → StaysWell (round m s c)
unfolding round
round-StaysWell m s c words w =
    let (r, got, rest) = recvall c.incoming 1 in
    let c' : Connection = record c { incoming = rest } in by_return r got c'
  where
    by_return :
        (r : Return) (got : List ℕ) (c' : Connection)
        → StaysWell (elim r as (λ _. Thread) [
          | count n ↦ after (dispatch_command m s (load got) c')
          | zero_returned ↦ finished s (close c')
          | minus_one ↦ finished s (close c')
          | waiting ↦ waits
        ])
    by_return (count n) got c' =
        after-StaysWell (dispatch_command m s (load got) c')
          (dispatch_command-EndsWell m s (load got) c' words w)
    by_return zero_returned got c' = finished_well w
    by_return minus_one got c' = finished_well w
    by_return waiting got c' = waits_well

-- A connection's thread that starts with every handle for a live object of its type and every live
-- object with one handle is so wherever it stands after any number of rounds, whatever bytes its
-- client sends, unless it has faulted or waits.
pub connection_thread-StaysWell :
    (ms : List Machine) (s : Server) (c : Connection)
    → All (λ m. AreWords m.rands) ms
    → IsWellFormed s
    → StaysWell (connection_thread ms s c)
unfolding connection_thread
connection_thread-StaysWell [] s c words w = runs_well w
connection_thread-StaysWell (m ∷ ms) s c (here, there) w =
    go_on (λ s' c' w'. connection_thread-StaysWell ms s' c' there w') (round m s c)
      (round-StaysWell m s c here w)
  where
    go_on :
        ((s' : Server) (c' : Connection) → IsWellFormed s' → StaysWell (connection_thread ms s' c'))
        → (t : Thread) → StaysWell t
        → StaysWell (elim t as (λ _. Thread) [
          | runs s' c' ↦ connection_thread ms s' c'
          | finished s' c' ↦ finished s' c'
          | program_exited s' c' ↦ program_exited s' c'
          | waits ↦ waits
          | crashed ↦ crashed
        ])
    go_on more (runs s' c') (runs_well w') = more s' c' w'
    go_on more (finished s' c') (finished_well w') = finished_well w'
    go_on more (program_exited s' c') (program_exited_well w') = program_exited_well w'
    go_on more waits w' = waits_well
    go_on more crashed w' = crashed_well
