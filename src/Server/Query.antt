-- ===== src/Server/Query.antt =====
-- CEServer/api.cpp: VirtualQueryExFull and VirtualQueryEx.
--
-- The areas in physical memory, as the driver lists them, and the clock (in milliseconds) are
-- arguments. A field that the code leaves unset is `none`.
pub mod Search
use rw_mem.Common.{
  ℕ, ◌+◌, ◌-◌, ◌*◌, ◌/◌, ◌%◌, ◌^◌, Bool, true, false, ◌&&◌, ◌||◌, Option, none, some, List, [], ◌∷◌,
  ltb, leb, ◌==◌, if◌then◌else◌,
}
use rw_mem.Server.Handle.{
  HandleType, Object, open_process, process_list, module_list, thread_list, CeOpenProcess, Server,
  RegionInfo, update, get_handle_type, get_pointer_from_handle, is_process,
}
use rw_mem.Server.Driver.{page_noaccess, mem_mapped}

-- `vqe_noshared`
abbrev pub noshared : ℕ → Bool
noshared flags = flags / 4 % 2 == 1

-- What `VirtualQueryExFull` passes over.
unfoldable pub is_hidden : ℕ → RegionInfo → Bool
is_hidden flags r = (r.protection == page_noaccess) || ((r.type == mem_mapped) && noshared flags)

unfoldable pub shown : ℕ → List RegionInfo → List RegionInfo
unfolding is_hidden
shown flags [] = []
shown flags (r ∷ rs) = if is_hidden flags r then shown flags rs else r ∷ shown flags rs

-- the opened process behind a handle
abbrev pub process_at : Option Object → Option CeOpenProcess
process_at (some (open_process o)) = some o
process_at (some (process_list l i)) = none
process_at (some (module_list l i)) = none
process_at (some (thread_list l)) = none
process_at none = none

abbrev pub keep : Server → ℕ → CeOpenProcess → Server
keep s p o = record s { heap = update s.heap p (some (open_process o)) }

abbrev pub store_maps : CeOpenProcess → List RegionInfo → ℕ → CeOpenProcess
store_maps o [] now = record o { last_maps = []; last_get_maps_time = 0 }
store_maps o (r ∷ rs) now = record o { last_maps = r ∷ rs; last_get_maps_time = now }

abbrev pub has_maps : List RegionInfo → Bool
has_maps [] = false
has_maps (r ∷ rs) = true

-- `CApi::VirtualQueryExFull`: the regions if it returns 1, and the state. `none` is a pointer to
-- what is not an opened process.
unfoldable pub virtual_query_ex_full :
    (ℕ → List RegionInfo) → ℕ → Server → ℕ → ℕ → Option (Option (List RegionInfo) × Server)
virtual_query_ex_full maps now s h flags =
    let p = get_pointer_from_handle s h in
    if is_process (get_handle_type s h)
    then elim (process_at (s.heap p)) [
      | none ↦ none
      | some o ↦
          let fetched = maps o.driver_process_handle in
          some (
            if has_maps fetched then some (shown flags fetched) else none,
            keep s p (store_maps o fetched now),
          )
    ]
    else some (none, s)

-- `rinfo` and `memName` after `VirtualQueryEx`.
pub record Answer : Type 0 where
  pub baseaddress : ℕ
  pub protection : ℕ
  pub size : Option ℕ
  pub type : Option ℕ
  pub name : List ℕ

-- `lpAddress & ~0xfff`
unfoldable pub page_of : ℕ → ℕ
page_of address = address / 4096 * 4096

-- The loop over the areas, at the page's address: the first area that ends behind it.
unfoldable pub search_maps : ℕ → List RegionInfo → Option Answer
search_maps page [] = none
search_maps page (r ∷ rs) =
    let stop = (r.baseaddress + r.size) % 2 ^ 64 in
    let inside : Answer = record {
      baseaddress = page;
      protection = r.protection;
      size = some (stop - page);
      type = some r.type;
      name = r.name;
    } in
    let gap : Answer = record {
      baseaddress = page;
      protection = page_noaccess;
      size = some (r.baseaddress - page);
      type = some 0;
      name = r.name;
    } in
    if ltb page stop
    then some (if leb r.baseaddress page then inside else gap)
    else search_maps page rs

abbrev pub unset : ℕ → Answer
unset page = record { baseaddress = page; protection = 0; size = none; type = none; name = [] }

-- Whether the kept list is older than a minute, in unsigned arithmetic.
unfoldable pub is_stale : ℕ → CeOpenProcess → Bool
is_stale now o = ltb 60000 ((now + 2 ^ 64 - o.last_get_maps_time) % 2 ^ 64)

-- What a call of `VirtualQueryEx` does once it has the list: `found`, and what it filled in.
abbrev pub answer_from : ℕ → List RegionInfo → Bool × Answer
answer_from page rs = elim (search_maps page rs) [ none ↦ (false, unset page) | some a ↦ (true, a) ]

-- The result of a call: it failed before it touched `rinfo`, or `found` and the answer.
pub data Reply : Type 0 where
  refused : Reply
  replied : Bool → Answer → Reply

abbrev pub reply_from : ℕ → List RegionInfo → Reply
reply_from page rs = let (found, a) = answer_from page rs in replied found a

-- `CApi::VirtualQueryEx`. The clock is read when the call begins, and again after a fetch.
unfoldable pub virtual_query_ex :
    (ℕ → List RegionInfo) → ℕ → ℕ → Server → ℕ → ℕ → Option (Reply × Server)
virtual_query_ex maps now later s h address =
    let p = get_pointer_from_handle s h in
    if is_process (get_handle_type s h)
    then elim (process_at (s.heap p)) [
      | none ↦ none
      | some o ↦
          let fetched = maps o.driver_process_handle in
          if is_stale now o
          then some (
            if has_maps fetched then reply_from (page_of address) fetched else refused,
            keep s p (store_maps o fetched later),
          )
          else some (reply_from (page_of address) o.last_maps, s)
    ]
    else some (refused, s)
