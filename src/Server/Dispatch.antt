-- ===== src/Server/Dispatch.antt =====
-- CEServer/main.cpp: DispatchCommand, newConnectionThread and the answer of IdentifierThread.
--
-- A connection is what arrives on its socket, the buffers that were handed to `sendall`, and how often
-- the socket was closed. A send that fails is not modelled: the code never looks at the result of one
-- for a reply.
pub mod Command
pub mod Modules
pub mod Loop
pub mod Walks
pub mod Calls
pub mod Replies
pub mod Invariant
pub mod Safety
pub mod Faultless
use rw_mem.Common.{
  ℕ, zero, suc, ◌+◌, ◌-◌, ◌*◌, ◌/◌, ◌%◌, ◌^◌, Bool, true, false, ◌&&◌, Option, none, some, List, [],
  ◌∷◌, ◌++◌, ltb, leb, ◌==◌, if◌then◌else◌, length, take, drop, replicate, store, load,
}
use rw_mem.Server.Handle.{RegionInfo, Server}
use rw_mem.Server.Snapshot.{Environment}
use rw_mem.Server.Driver.Memory.{Transfer}
use rw_mem.Server.Socket.{Arrival, Return, count, zero_returned, minus_one, waiting, recvall}

pub record Connection : Type 0 where
  pub incoming : List Arrival
  pub sent : List (List ℕ)
  pub closes : ℕ

-- What the server runs on: the file system and the driver, the areas that the driver lists when only
-- those in physical memory are shown, the clock when a call begins and after
-- it has fetched, the draws of `rand`, zlib at a level, and what a variable holds that nothing was
-- stored in.
pub record Machine : Type 0 where
  pub env : Environment
  pub physical_maps : ℕ → List RegionInfo
  pub sys_read : List ℕ → ℕ → Transfer
  pub sys_write : List ℕ → ℕ → Option ℕ
  pub now : ℕ
  pub later : ℕ
  pub rands : List ℕ
  pub compress : ℕ → List ℕ → List ℕ
  pub garbage : ℕ

-- How a command ends: DispatchCommand returns, the program exits, the thread waits for bytes, or it
-- has used memory that is not there or run out of draws.
pub data Dispatched : Type 0 where
  returned : Server → Connection → Dispatched
  exited : Server → Connection → Dispatched
  blocked : Dispatched
  faulted : Dispatched

-- `sendall(currentsocket, …)`
unfoldable pub send : List ℕ → Connection → Connection
send bytes c = record c { sent = c.sent ++ (bytes ∷ []) }

-- `close(currentsocket)`
unfoldable pub close : Connection → Connection
close c = record c { closes = suc c.closes }

-- The test `recvall(…) > 0` on what a call gave, and what follows on each side.
abbrev pub on_return : Return → (ℕ → Dispatched) → Dispatched → Dispatched
on_return (count zero) found lost = lost
on_return (count (suc n)) found lost = found (suc n)
on_return zero_returned found lost = lost
on_return minus_one found lost = lost
on_return waiting found lost = blocked

-- `if (recvall(…) > 0) … else …`
unfoldable pub receive :
    Connection → ℕ → (List ℕ → Connection → Dispatched) → (Connection → Dispatched) → Dispatched
receive c size found lost =
    let (r, got, rest) = recvall c.incoming size in
    let c' : Connection = record c { incoming = rest } in on_return r (λ n. found got c') (lost c')

-- A call of the API that cannot go on faults.
module _ {A : Type 0} where
  unfoldable pub called : Option A → (A → Dispatched) → Dispatched
  called none go_on = faulted
  called (some r) go_on = go_on r

-- An integer at an offset of a packed struct.
unfoldable pub field : ℕ → ℕ → List ℕ → ℕ
field offset size bytes = load (take size (drop offset bytes))
