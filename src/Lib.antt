-- ===== src/Lib.antt =====
-- The rwMem program: a Linux kernel module that reads and writes the memory of processes and sets
-- hardware breakpoints (rwMem/), and CEServer, which serves the Cheat Engine client over the network
-- and asks the kernel module for memory and for the areas of a process (CEServer/).
--
-- Kernel.Maps           rwMem/proc_maps.h and two requests of rwmem_ioctl in rwMem/sys.c: the list of a
--                       process's areas, as it is written into the caller's buffer
-- Kernel.Memory         rwmem_read and rwmem_write of rwMem/sys.c, abstractly: the pieces they copy
-- Kernel.Paging         rwMem/phy_mem.h: the walk through the page tables, the status of an entry
-- Kernel.Physical       rwMem/phy_mem.h: the copies between physical memory and a buffer
-- Kernel.Transfer       rwmem_read and rwmem_write in full, over Kernel.Paging and Kernel.Physical
-- Kernel.Residency      IOCTL_CHECK_PROCESS_ADDR_PHY of rwMem/sys.c
-- Kernel.AddBp          IOCTL_ADD_BP of rwMem/sys.c, create_rwmem_bp_file and rwmem_bp_release
-- Kernel.Ioctl          the switch of rwmem_ioctl and the numbers of its requests
-- Kernel.Registration   rwmem_dev_init and rwmem_dev_exit of rwMem/sys.c
-- Kernel.Breakpoint     rwMem/bp.c: the file of a breakpoint, the works of the stopped task, the steps
-- Server.Driver         CEServer/MemoryReaderWriter37.hpp: the client of the kernel module
-- Server.Driver.Residency  its query for the pages that lie in physical memory
-- Server.Driver.Connection its connection, the open device file
-- Server.Driver.Requests   the numbers of its requests, as rwmem_ioctl answers them
-- Server.Driver.Fast       its reads and writes that keep their buffer; its reads on rwmem_read
-- Server.Handle         CEServer/porthelp.cpp: the handle table
-- Server.Process        OpenProcess and CloseHandle of CEServer/api.cpp, with the heap
-- Server.Snapshot       CreateToolhelp32Snapshot of CEServer/api.cpp
-- Server.Toolhelp       Process32First, Process32Next, Module32First, Module32Next
-- Server.Query          VirtualQueryExFull and VirtualQueryEx of CEServer/api.cpp
-- Server.Socket         recvall and sendall of CEServer/main.cpp
-- Server.Dispatch       DispatchCommand, newConnectionThread and the answer of IdentifierThread
--
-- A function has the name of the one it stands for, in snake case; a record has its struct's fields.
-- The state of the server is the handle table with the heap that its pointers point to; a command
-- takes it and the connection, and gives both back. The kernel module's breakpoints are a record of
-- the files' private data, the list of steps and the tasks. Server.Driver meets Kernel.Maps and
-- Kernel.Memory only in the bytes that pass between them, and the theorems that join the two are
-- about these bytes. Kernel.Memory is the abstract view of the calls that Kernel.Transfer has in
-- full.
--
-- Machine words are natural numbers with their wrap-around written out, bytes are numbers, memory
-- is a list of bytes. What the program reads from the system is an argument: the entries of /proc,
-- the page tables, the draws of random_device, the clock, zlib, the socket's events. A use of memory
-- that is not there is a result of its own, none or faulted.
--
-- Fuel: module_loop and walk take the length of the snapshot's list, one round for each entry;
-- copy_loop, read_loop, write_loop and the two loops of Kernel.Physical take the size that is asked
-- for, and every round copies at least a byte; check_loop and phy_loop take the count of the pages, one
-- round for each; blocks takes the number of compressed bytes, of which each round sends 65536.
-- Everything else is by recursion on the data.
--
-- Not modelled: fasync and the channel by lseek, the sockets and threads themselves, and
-- CEServer/symbols.cpp, all of which is commented out.
-- The mutexes of CEServer/api.cpp are left out: a call is one step.
mod Common
pub mod Kernel
pub mod Server
