-- ===== src/Server/Driver/Connection.antt =====
-- CEServer/MemoryReaderWriter37.hpp: the client's connection, which is the open device file.
--
-- What `open` gives for the mode of the device file is an argument, and so is whether `chmod` is
-- allowed. Closed descriptors are kept in a list, the last one first.
pub mod Laws
use rw_mem.Common.{ℕ, ◌==◌, Bool, true, false, Option, none, some, List, ◌∷◌, if◌then◌else◌}
use rw_mem.Common.Result.{Errno, einval, efault, enomem, other_error, Result, ok, err}

-- `m_nDriverLink`, where a number that is negative is `none`, `m_bUseBypassSELinuxMode`, the mode of
-- the device file, and the descriptors that were closed.
pub record Client : Type 0 where
  pub driver_link : Option ℕ
  pub use_bypass_se_linux_mode : Bool
  pub mode : ℕ
  pub closed : List ℕ

-- `EACCES` is 13.
abbrev pub is_eacces : Errno → Bool
is_eacces einval = false
is_eacces efault = false
is_eacces enomem = false
is_eacces (other_error n) = n == 13

-- The modes that `chmod` is called with: 666 in decimals, and 0600.
abbrev pub open_mode : ℕ
open_mode = 666

abbrev pub closed_mode : ℕ
closed_mode = 384

-- What `ConnectDriver` makes of the link that it has and of what `_rwProcMemDriver_Connect` gives.
abbrev pub connected_with : Client → Bool → Option ℕ → Result ℕ × ℕ → Result Bool × Client
connected_with c bypass (some fd) answer = (ok true, c)
connected_with c bypass none (err e, mode) = (err e, record c { mode = mode })
connected_with c bypass none (ok fd, mode) =
    (ok true, record c { driver_link = some fd; use_bypass_se_linux_mode = bypass; mode = mode })

module _ (sys_open : ℕ → Result ℕ) (may_chmod : Bool) where
  -- `_rwProcMemDriver_Connect`: the descriptor or the error, and the device file's mode.
  unfoldable pub driver_connect : ℕ → Result ℕ × ℕ
  driver_connect mode = elim (sys_open mode) [
    | ok fd ↦ (ok fd, mode)
    | err e ↦
        if is_eacces e
        then (if may_chmod then (sys_open open_mode, closed_mode) else (sys_open mode, mode))
        else (err e, mode)
  ]

  -- `ConnectDriver`: TRUE, or FALSE with the error.
  unfoldable pub connect_driver : Client → Bool → Result Bool × Client
  connect_driver c bypass = connected_with c bypass c.driver_link (driver_connect c.mode)

-- `DisconnectDriver`, which the destructor calls too.
unfoldable pub disconnect_driver : Client → Bool × Client
disconnect_driver c = elim c.driver_link [
  | none ↦ (false, c)
  | some fd ↦ (true, record c { driver_link = none; closed = fd ∷ c.closed })
]

-- `IsDriverConnected`
unfoldable pub is_driver_connected : Client → Bool
is_driver_connected c = elim c.driver_link [ none ↦ false | some fd ↦ true ]
