-- ===== src/Server/Dispatch/Faultless.antt =====
-- Which commands of CEServer/main.cpp never use memory that is not there.
use rw_mem.Common.{Bool, true, false, Option, none, some}
use rw_mem.Server.Handle.{Server}
use rw_mem.Server.Dispatch.Loop.{Command}

-- Every command but the three that make handles, the two that step a snapshot's iterator, and the three
-- that compute the size of a buffer from one that the client gives: CMD_WRITEPROCESSMEMORY,
-- CMD_GETSYMBOLLISTFROMFILE and CMD_AOBSCAN.
abbrev pub is_plain : Command → Bool
is_plain Command.openprocess = false
is_plain Command.createtoolhelp32snapshot = false
is_plain Command.createtoolhelp32snapshotex = false
is_plain Command.process32next = false
is_plain Command.module32next = false
is_plain Command.writeprocessmemory = false
is_plain Command.getsymbollistfromfile = false
is_plain Command.aobscan = false
is_plain _ = true

abbrev pub is_plain_code : Option Command → Bool
is_plain_code none = true
is_plain_code (some command) = is_plain command
