-- ===== src/Server/Driver/Connection/Laws.antt =====
-- The connection of CEServer/MemoryReaderWriter37.hpp over its calls.
use rw_mem.Common.{ℕ, ◌≡◌, ◌⊎◌, Bool, true, false, ◌∷◌}
use rw_mem.Common.Result.{Errno, Result, ok, err}
use rw_mem.Server.Driver.Connection.{Client, connect_driver, disconnect_driver, is_driver_connected}

module _ (sys_open : ℕ → Result ℕ) (may_chmod : Bool) (bypass : Bool) where
  abbrev connect : Client → Result Bool × Client
  connect c = connect_driver sys_open may_chmod c bypass

  -- How a call of ConnectDriver on a client without a connection ends.
  abbrev pub Connects : Client → Result Bool × Client → Type 0
  Connects c (r, d) =
      ((e : Errno) × (r ≡ err e) × (is_driver_connected d ≡ false) × (d.closed ≡ c.closed))
      ⊎ ((fd : ℕ) × (r ≡ ok true)
          × (is_driver_connected d ≡ true)
          × (connect d ≡ (ok true, d))
          × ((disconnect_driver d).0 ≡ true)
          × ((disconnect_driver d).1.closed ≡ fd ∷ c.closed)
          × (is_driver_connected (disconnect_driver d).1 ≡ false))
