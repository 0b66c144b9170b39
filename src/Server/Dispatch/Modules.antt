-- ===== src/Server/Dispatch/Modules.antt =====
-- CEServer/main.cpp: CMD_CREATETOOLHELP32SNAPSHOTEX, which makes a snapshot, sends what it holds, and
-- closes it.
pub mod Stream
pub mod Fits
use rw_mem.Common.{
  ℕ, zero, suc, ◌+◌, Bool, true, false, ◌&&◌, Option, none, some, List, [], ◌∷◌, ◌++◌, ltb, leb,
  ◌==◌, if◌then◌else◌, length, store,
}
use rw_mem.Server.Handle.{
  Object, open_process, process_list, module_list, thread_list, ModuleListEntry, Server,
  get_pointer_from_handle,
}
use rw_mem.Server.Process.{close_handle}
use rw_mem.Server.Snapshot.{
  create_toolhelp32_snapshot, has_flag, th32cs_snapmodule, th32cs_snapthread,
}
use rw_mem.Server.Toolhelp.{module32_first, module32_next}
use rw_mem.Server.Dispatch.{
  Connection, Machine, Dispatched, returned, blocked, faulted, send, close, receive, called, field,
}
use rw_mem.Server.Dispatch.Command.{module_entry, send_all}

-- One round's part of the output stream: the stream is flushed when the entry would not fit. An entry
-- that alone is longer than the buffer, which the source writes past its end, is a longer list here.
unfoldable pub put_entry : ModuleListEntry → List ℕ × Connection → List ℕ × Connection
put_entry me (stream, c) =
    let entry = module_entry (some me) in
    if ltb 65536 (length stream + length entry)
    then (entry, send stream c)
    else (stream ++ entry, c)

-- The loop from the entry that it has in `me`; `none` where a call faults or the fuel runs out.
unfoldable pub module_loop :
    ℕ → Server → ℕ → ModuleListEntry → List ℕ × Connection → Option ((List ℕ × Connection) × Server)
module_loop zero s r me out = none
module_loop (suc fuel) s r me out =
    let out' = put_entry me out in
    elim (module32_next s r) [
      | none ↦ none
      | some (next, s') ↦ elim next [
        | none ↦ some (out', s')
        | some me' ↦ module_loop fuel s' r me' out'
      ]
    ]

-- `if (r && Module32First(r, me)) do … while (…)`
unfoldable pub stream_modules :
    ℕ → Server → ℕ → List ℕ × Connection → Option ((List ℕ × Connection) × Server)
stream_modules fuel s r out = if r == 0 then some (out, s) else elim (module32_first s r) [
  | none ↦ none
  | some (first, s') ↦ elim first [ none ↦ some (out, s') | some me ↦ module_loop fuel s' r me out ]
]

-- The entry that ends the list; its other fields are what the variable held.
unfoldable pub end_of_list : ℕ → List ℕ
end_of_list garbage =
    store 4 0
    ++ store 8 garbage
    ++ store 4 garbage
    ++ store 4 garbage
    ++ store 4 garbage
    ++ store 4 0

-- The flush after the loop, and the end of the list.
unfoldable pub finish_stream : ℕ → List ℕ × Connection → Connection
finish_stream garbage (stream, c) =
    send (end_of_list garbage) (if length stream == 0 then c else send stream c)

-- How many rounds the snapshot's list can take.
abbrev pub rounds : Option Object → ℕ
rounds (some (module_list l i)) = length l
rounds (some (open_process o)) = 0
rounds (some (process_list l i)) = 0
rounds (some (thread_list l)) = 0
rounds none = 0

unfoldable pub closed_after : ℕ → Server → Connection → Dispatched
closed_after r s c =
    if r == 0 then returned s c else called (close_handle s r) (λ s'. returned s' c)

unfoldable pub modules_reply : Machine → ℕ → Server → Connection → Dispatched
modules_reply m r s c =
    called (stream_modules (rounds (s.heap (get_pointer_from_handle s r))) s r ([], c))
      (λ (out, s'). closed_after r s' (finish_stream m.garbage out))

unfoldable pub ids : List ℕ → List ℕ
ids [] = []
ids (tid ∷ tids) = store 4 tid ++ ids tids

-- The object is taken for a list of threads whatever it is.
abbrev pub threads_of : Option Object → Option (List ℕ)
threads_of (some (thread_list l)) = some l
threads_of (some (module_list l i)) = none
threads_of (some (open_process o)) = none
threads_of (some (process_list l i)) = none
threads_of none = none

unfoldable pub threads_reply : ℕ → Server → Connection → Dispatched
threads_reply r s c =
    if r == 0
    then returned s (send (store 4 0) c)
    else called (threads_of (s.heap (get_pointer_from_handle s r)))
        (λ tids. closed_after r s (send (ids tids) (send (store 4 (length tids)) c)))

-- CMD_CREATETOOLHELP32SNAPSHOTEX
unfoldable pub snapshot_ex_command : Machine → Server → Connection → Dispatched
snapshot_ex_command m s c =
    receive c 8
      (λ params c'.
        let flags = field 0 4 params in
        called (create_toolhelp32_snapshot m.env s m.rands flags (field 4 4 params)) (λ (r, s').
          if has_flag flags th32cs_snapthread
          then threads_reply r s' c'
          else if has_flag flags th32cs_snapmodule
          then modules_reply m r s' c'
          else returned s' (send (store 4 r) c')))
      (λ c'. returned s (close c'))
