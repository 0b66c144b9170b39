-- ===== src/Server/Driver/Overrun.antt =====
-- What CEServer/MemoryReaderWriter37.hpp does when the process's memory goes away between the two
-- requests that it makes of rwMem/sys.c.
use rw_mem.Common.{
  ℕ, zero, suc, ◌*◌, ◌^◌, ◌<◌, ◌≤◌, ◌≡◌, refl, ◌%◌, ◌++◌, ap, ap₂, ◌∙◌, ltb-false, take-append_eq,
  drop-append_eq, length-store, load-store, ◌≢◌, true, false, none, some, List, drop, ltb, arith,
  length, length-drop, Option-cases, Bool-cases, take, load, store, inl, inr,
}
use rw_mem.Common.Result.{ok}
use rw_mem.Server.Handle.{RegionInfo}
use rw_mem.Server.Driver.{
  read_entry, read_entries, fault, virtual_query_ex_full, big_buf, big_buf_len, answered,
}
use rw_mem.Server.Driver.Decode.{
  length-big_buf, process-big_buf, name_len-big_buf, query_answered, maps_count_ioctl-alive,
}
use rw_mem.Kernel.Maps.{
  Process, Mm, no_mm, alive, minus, get_proc_maps_list, maps_count_ioctl, maps_list_ioctl,
}

read_entry-rest :
    (mem rest : List ℕ) (r : RegionInfo)
    → read_entry mem ≡ some (r, rest)
    → (532 ≤ length mem) × (rest ≡ drop 532 mem)
unfolding read_entry
read_entry-rest mem rest r e = elim (Bool-cases (ltb (length mem) 532)) [
  | inl y ↦ absurd (ground arith)
  | inr n ↦ (ground arith, ground arith)
]

read_entries-short : (n : ℕ) (mem : List ℕ) → length mem < 532 * n → read_entries n mem ≡ none
unfolding read_entries
read_entries-short zero mem h = absurd (omega arith)
read_entries-short (suc n) mem h = elim (Option-cases (read_entry mem)) [
  | inl z ↦ rw (z, read_entries) refl
  | inr ((r, rest), z) ↦
      let (long, e) = read_entry-rest mem rest r z in
      let short : read_entries n rest ≡ none =
        read_entries-short n rest (omega (arith, ap length e, length-drop 532 mem)) in
      rw (z, read_entries, short) refl
]

no_memory_list :
    (pids : ℕ → Process) (process count : ℕ)
    → process < 2 ^ 32
    → big_buf_len count < 2 ^ 64
    → pids process ≡ no_mm
    → maps_list_ioctl pids (big_buf process count)
      ≡ (ok false, store 8 (minus 3) ++ drop 8 (big_buf process count))
unfolding maps_list_ioctl get_proc_maps_list
no_memory_list pids process count small big e =
    let id : process % 2 ^ 32 ≡ process = omega arith in
    let long : ltb (length (big_buf process count)) 24 ≡ false =
      ltb-false (length (big_buf process count)) 24
        (omega (arith, length-big_buf process count big small)) in
    rw
      (
        maps_list_ioctl,
        process-big_buf process count big small,
        name_len-big_buf process count big small,
        id,
        e,
        long,
      )
      refl

-- Where the client's two requests are answered by the functions for them, and the areas that are
-- counted are at least one and fewer than 2^20: if the process has lost its memory when it is asked
-- for its areas, after they were counted, the driver's error comes back as a count with no word that it
-- failed, and the client reads past the end of its buffer.
pub virtual_query_ex_full-no_mm :
    (before after : ℕ → Process) (process : ℕ) (mm : Mm)
    → process < 2 ^ 32
    → process ≢ 0
    → before process ≡ alive mm
    → after process ≡ no_mm
    → 0 < mm.map_count
    → mm.map_count < 2 ^ 20
    → virtual_query_ex_full true (maps_count_ioctl before) (maps_list_ioctl after) process ≡ fault
virtual_query_ex_full-no_mm before after process mm small nz eb ea pos few =
    let count = mm.map_count in
    let buf = big_buf process count in
    let big : big_buf_len count < 2 ^ 64 = omega arith in
    let mem = store 8 (minus 3) ++ drop 8 buf in
    let counted : load (take 8 mem) ≡ minus 3 =
      ap load (
        take-append_eq 8 (store 8 (minus 3)) (drop 8 buf) (omega (arith, length-store 8 (minus 3))))
      ∙ load-store 8 (minus 3) (omega arith) in
    let behind : drop 8 mem ≡ drop 8 buf =
      drop-append_eq 8 (store 8 (minus 3)) (drop 8 buf) (omega (arith, length-store 8 (minus 3))) in
    let short : read_entries (minus 3) (drop 8 buf) ≡ none =
      read_entries-short (minus 3) (drop 8 buf)
        (omega (arith, length-drop 8 buf, length-big_buf process count big small)) in
    query_answered (maps_count_ioctl before) (maps_list_ioctl after) process count false mem nz pos
      few (maps_count_ioctl-alive before process mm small eb)
      (no_memory_list after process count small big ea)
    ∙ ap₂ (λ (n : ℕ) (m : List ℕ). answered false (read_entries n m)) counted behind
    ∙ ap (answered false) short
