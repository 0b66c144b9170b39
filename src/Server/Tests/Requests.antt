-- ===== src/Server/Tests/Requests.antt =====
-- The client's requests, with the numbers that the kernel's macros make on most machines.
use rw_mem.Common.{◌+◌, ◌*◌, ◌^◌, ◌≡◌, true, arith}
use rw_mem.Kernel.Maps.{no_mm}
use rw_mem.Kernel.Ioctl.{Macros, Env}
use rw_mem.Kernel.Ioctl.Laws.{AreNumbers}
use rw_mem.Kernel.Tests.Transfers.{flat_arch, flat_ptes, one_task}
use rw_mem.Kernel.Tests.Creation.{some_answers, nothing_yet}
use rw_mem.Server.Driver.{virtual_query_ex_full, failed}
use rw_mem.Server.Driver.Residency.{virtual_query_ex_full_phy}
use rw_mem.Server.Driver.Requests.{count_request, list_request, phy_request}
use rw_mem.Server.Driver.Requests.Laws.{virtual_query_ex_full-count_request}

abbrev packed : Macros
packed = record {
  io = λ t n. t * 2 ^ 8 + n;
  iow = λ t n s. 2 ^ 30 + s * 2 ^ 16 + t * 2 ^ 8 + n;
  iowr = λ t n s. 3 * 2 ^ 30 + s * 2 ^ 16 + t * 2 ^ 8 + n;
}

packed-AreNumbers : AreNumbers packed
packed-AreNumbers = record {
  io_iowr = λ t n u m s a b c d e q. omega arith;
  iow_iowr = λ t n r u m s a b c d e f q. omega arith;
  iowr_iowr = λ t n r u m s a b c d e f other q. omega arith;
}

abbrev some_env : Env
some_env = record {
  pids = λ _. no_mm;
  arch = flat_arch;
  ptes = flat_ptes;
  tasks = one_task;
  kmalloc = true;
  asked = some_answers;
  id_aa64dfr0 = 5 * 2 ^ 12;
}

virtual_query_ex_full-count_request_example :
    (virtual_query_ex_full true
        (count_request packed some_env nothing_yet)
        (list_request packed some_env nothing_yet 4096)
        42
      ≡ failed)
    × (virtual_query_ex_full_phy
          (phy_request packed some_env nothing_yet 4096)
          true
          (count_request packed some_env nothing_yet)
          (list_request packed some_env nothing_yet 4096)
          42
        ≡ failed)
virtual_query_ex_full-count_request_example =
    virtual_query_ex_full-count_request packed packed-AreNumbers some_env nothing_yet true 4096 42
