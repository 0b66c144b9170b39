-- ===== src/Server/Driver/Decode.antt =====
-- CEServer/MemoryReaderWriter37.hpp reads what rwMem/proc_maps.h writes.
use rw_mem.Common.{
  lt→ltb, ==_false, ap₂, leb-suc, ltb-false, ℕ, zero, suc, ◌+◌, ◌-◌, ◌*◌, ◌%◌, ◌^◌, ◌≤◌, ◌<◌, ◌≡◌,
  refl, sym, ap, ◌∙◌, ◌≢◌, Bool, true, false, not, some, List, [], ◌∷◌, ◌++◌, map, ltb, leb, length,
  take, drop, replicate, store, load, arith, All, append_assoc, length-append, length-store,
  load-store, take-append_eq, drop-append_eq, length-drop, length-replicate, drop-drop,
}
use rw_mem.Common.Result.{Result, ok}
use rw_mem.Server.Handle.{RegionInfo}
use rw_mem.Server.Driver.{
  read_entry, read_entries, big_buf, big_buf_len, answer, answered, virtual_query_ex_full,
}
use rw_mem.Kernel.Maps.{
  Vma, Mm, Process, alive, copy_entry, wrote, maps_loop, maps_count_ioctl, maps_list_ioctl,
  get_proc_maps_list,
}
use rw_mem.Kernel.Maps.Layout.{maps_loop-Keeps, maps_loop_full, maps_loop_wrote}
use rw_mem.Server.Driver.Entries.{region_of, IsArea, flags, path, entry, read_entry-entry, take_one}

copy_entry_full :
    (mm : Mm) (v : Vma) (a : IsArea v) (mem : List ℕ)
    → 532 ≤ length mem
    → (last : ℕ) × (b : List ℕ) × (copy_entry mm v 512 mem ≡ wrote b (drop 532 mem))
      × ((m : List ℕ) → b ++ m ≡ entry mm v a (last ∷ m))
unfolding copy_entry entry
copy_entry_full mm v a mem h =
    let (last, e) = take_one (drop 531 mem) (omega (arith, length-drop 531 mem)) in
    (
      last,
      ((store 8 v.vm_start ++ store 8 v.vm_end) ++ flags mm v a ++ path mm v a) ++ (last ∷ []),
      rw
          (
            ltb-false (length mem) 8 (omega arith),
            ltb-false (length mem) 16 (omega arith),
            ltb-false (length mem) 20 (omega arith),
            ltb-false (length mem) 531 (omega arith),
            e,
          )
          refl,
      λ m. simp append_assoc refl,
    )

read_entries-suc :
    (res : ℕ) (mem rest : List ℕ) (r : RegionInfo) (rs : List RegionInfo)
    → read_entry mem ≡ some (r, rest)
    → read_entries res rest ≡ some rs
    → read_entries (suc res) mem ≡ some (r ∷ rs)
unfolding read_entries
read_entries-suc res mem rest r rs e f = ground arith

pub maps_loop-read_entries :
    (mm : Mm) (vs : List Vma) (k room : ℕ) (mem : List ℕ)
    → room ≡ k * 532
    → room ≤ length mem
    → All IsArea vs
    → let (n, m, pass) = maps_loop mm vs 512 room mem in
      (read_entries n m ≡ some (map (region_of mm) (take k vs))) × (pass ≡ not (leb (length vs) k))
maps_loop-read_entries mm [] zero room mem e h a =
    unfold maps_loop read_entries in (refl, ground arith)
maps_loop-read_entries mm [] (suc k) room mem e h a =
    unfold maps_loop read_entries in (refl, ground arith)
maps_loop-read_entries mm (v ∷ vs) zero room mem e h a =
    rw (maps_loop_full mm v vs 512 room mem (omega arith))
      (unfold read_entries in (refl, ground arith))
maps_loop-read_entries mm (v ∷ vs) (suc k) room mem e h a =
    let (last, b, c, lay) = copy_entry_full mm v a.0 mem (omega arith) in
    let (ih, pass) =
      maps_loop-read_entries mm vs k (room - 532) (drop 532 mem) (omega arith)
        (omega (arith, length-drop 532 mem)) a.1 in
    rw (maps_loop_wrote mm v vs 512 room mem b (drop 532 mem) (omega arith) c) (
      ap (read_entries _) (lay _)
          ∙ read_entries-suc _ _ _ _ _ (read_entry-entry mm v a.0 last _) ih,
      pass ∙ ap not (sym (leb-suc (length vs) k)),
    )

-- What the driver's list request leaves in the client's buffer.
module _ (process count : ℕ) (big : big_buf_len count < 2 ^ 64) (small : process < 2 ^ 32) where
  pub length-big_buf : length (big_buf process count) ≡ big_buf_len count
  unfolding big_buf
  length-big_buf =
      let zeros = replicate (big_buf_len count - 24) 0 in
      let tail = store 8 (big_buf_len count) ++ zeros in
      omega (
        arith,
        length-append (store 8 process) (store 8 512 ++ tail),
        length-append (store 8 512) tail,
        length-append (store 8 (big_buf_len count)) zeros,
        length-replicate {A = ℕ} (big_buf_len count - 24) 0,
        length-store,
      )

  pub process-big_buf : load (take 8 (big_buf process count)) ≡ process
  unfolding big_buf
  process-big_buf =
      ap load (take-append_eq 8 (store 8 process) _ (sym (length-store 8 process)))
      ∙ load-store 8 process (omega arith)

  behind_process :
      drop 8 (big_buf process count)
      ≡ store 8 512 ++ (store 8 (big_buf_len count) ++ replicate (big_buf_len count - 24) 0)
  unfolding big_buf
  behind_process = drop-append_eq 8 (store 8 process) _ (sym (length-store 8 process))

  pub name_len-big_buf : load (take 8 (drop 8 (big_buf process count))) ≡ 512
  name_len-big_buf =
      ap (λ (m : List ℕ). load (take 8 m)) behind_process
      ∙ (ap load (take-append_eq 8 (store 8 512) _ (sym (length-store 8 512)))
          ∙ load-store 8 512 (omega arith))

  buf_size-big_buf : load (take 8 (drop 16 (big_buf process count))) ≡ big_buf_len count
  buf_size-big_buf =
      ap (λ (m : List ℕ). load (take 8 m))
        (sym (drop-drop 8 8 (big_buf process count))
          ∙ (ap (drop 8) behind_process
              ∙ drop-append_eq 8 (store 8 512) _ (sym (length-store 8 512))))
      ∙ (ap load (
            take-append_eq 8 (store 8 (big_buf_len count)) _
              (sym (length-store 8 (big_buf_len count))))
          ∙ load-store 8 (big_buf_len count) (omega arith))

maps_list_ioctl-big_buf :
    (pids : ℕ → Process) (process count : ℕ) (mm : Mm)
    → process < 2 ^ 32
    → big_buf_len count < 2 ^ 64
    → pids process ≡ alive mm
    → maps_list_ioctl pids (big_buf process count) ≡ (
        let (n, m, pass) =
          maps_loop mm mm.mmap 512 (big_buf_len count - 8) (drop 8 (big_buf process count)) in
        (ok pass, store 8 n ++ m))
unfolding maps_list_ioctl get_proc_maps_list
maps_list_ioctl-big_buf pids process count mm small big e =
    let id : process % 2 ^ 32 ≡ process = omega arith in
    let long : ltb (length (big_buf process count)) 24 ≡ false =
      ltb-false (length (big_buf process count)) 24
        (omega (arith, length-big_buf process count big small)) in
    rw
      (
        maps_list_ioctl,
        process-big_buf process count big small,
        name_len-big_buf process count big small,
        buf_size-big_buf process count big small,
        id,
        e,
        long,
      )
      refl

answered_complete :
    (complete : Bool) (rs : List RegionInfo)
    → answered (not complete) (some rs) ≡ answer complete rs (not complete)
answered_complete true rs = refl
answered_complete false rs = refl

pub maps_count_ioctl-alive :
    (pids : ℕ → Process) (process : ℕ) (mm : Mm)
    → process < 2 ^ 32
    → pids process ≡ alive mm
    → maps_count_ioctl pids process ≡ ok mm.map_count
unfolding maps_count_ioctl
maps_count_ioctl-alive pids process mm small e =
    let id : process % 2 ^ 32 ≡ process = omega arith in rw (maps_count_ioctl, id, e) refl

-- the client's path to the loop over the entries
pub query_answered :
    (count_ioctl : ℕ → Result ℕ) (list_ioctl : List ℕ → Result Bool × List ℕ) (process count : ℕ)
    (unfinish : Bool) (mem : List ℕ)
    → process ≢ 0
    → 0 < count
    → count < 2 ^ 20
    → count_ioctl process ≡ ok count
    → list_ioctl (big_buf process count) ≡ (ok unfinish, mem)
    → virtual_query_ex_full true count_ioctl list_ioctl process
      ≡ answered unfinish (read_entries (load (take 8 mem)) (drop 8 mem))
unfolding virtual_query_ex_full
query_answered count_ioctl list_ioctl process count unfinish mem nz pos few ec el =
    let id : count % 2 ^ 32 ≡ count = omega arith in
    let below : ltb count (2 ^ 31) ≡ true = lt→ltb count (2 ^ 31) (omega arith) in
    let same : list_ioctl (big_buf process (count % 2 ^ 32)) ≡ (ok unfinish, mem) =
      ap (λ (c : ℕ). list_ioctl (big_buf process c)) id ∙ el in
    rw (==_false process 0 nz, ec, id, ==_false count 0 (omega arith), below, el)
      (ap
        (λ (r : Result Bool × List ℕ).
          answered unfinish (read_entries (load (take 8 r.1)) (drop 8 r.1)))
        same)

-- Whatever areas the process has when it is asked for them, the client reads exactly those that the
-- kernel module lists, in order, each with its bounds, protection, type and name. It reads all of
-- them if there are at most 50 more than were counted, and else the first so many; the BOOL that it
-- returns says which, and `bOutListCompleted` says the opposite.
pub virtual_query_ex_full-kernel :
    (before after : ℕ → Process) (process : ℕ) (mm mm' : Mm)
    → process < 2 ^ 32
    → process ≢ 0
    → before process ≡ alive mm
    → after process ≡ alive mm'
    → 0 < mm.map_count
    → mm.map_count < 2 ^ 20
    → All IsArea mm'.mmap
    → let k = mm.map_count + 50 in
      virtual_query_ex_full true (maps_count_ioctl before) (maps_list_ioctl after) process
      ≡ answer
          (leb (length mm'.mmap) k)
          (map (region_of mm') (take k mm'.mmap))
          (not (leb (length mm'.mmap) k))
virtual_query_ex_full-kernel before after process mm mm' small nz eb ea pos few areas =
    query_answered (maps_count_ioctl before) (maps_list_ioctl after) process count _ _ nz pos few
      (maps_count_ioctl-alive before process mm small eb)
      (maps_list_ioctl-big_buf after process count mm' small big ea)
    ∙ (ap₂ (λ (n : ℕ) (m : List ℕ). answered pass (read_entries n m)) counted entries
        ∙ (ap₂ answered passed decoded ∙ answered_complete _ _))
  where
    count : ℕ
    count = mm.map_count

    room : ℕ
    room = big_buf_len count - 8

    big : big_buf_len count < 2 ^ 64
    big = omega arith

    buffer : List ℕ
    buffer = drop 8 (big_buf process count)

    n : ℕ
    n = (maps_loop mm' mm'.mmap 512 room buffer).0

    m : List ℕ
    m = (maps_loop mm' mm'.mmap 512 room buffer).1

    pass : Bool
    pass = (maps_loop mm' mm'.mmap 512 room buffer).2

    held : n ≤ count + 50
    held = (maps_loop-Keeps mm' mm'.mmap 512 (count + 50) room buffer (omega arith) (omega arith)).2

    counted : load (take 8 (store 8 n ++ m)) ≡ n
    counted =
        ap load (take-append_eq 8 (store 8 n) m (sym (length-store 8 n)))
        ∙ load-store 8 n (omega (arith, held))

    entries : drop 8 (store 8 n ++ m) ≡ m
    entries = drop-append_eq 8 (store 8 n) m (sym (length-store 8 n))

    fits : room ≤ length buffer
    fits =
        omega (arith, length-drop 8 (big_buf process count), length-big_buf process count big small)

    decoded : read_entries n m ≡ some (map (region_of mm') (take (count + 50) mm'.mmap))
    decoded =
        (maps_loop-read_entries mm' mm'.mmap (count + 50) room buffer (omega arith) fits areas).0

    passed : pass ≡ not (leb (length mm'.mmap) (count + 50))
    passed =
        (maps_loop-read_entries mm' mm'.mmap (count + 50) room buffer (omega arith) fits areas).1
