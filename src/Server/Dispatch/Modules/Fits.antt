-- ===== src/Server/Dispatch/Modules/Fits.antt =====
-- The output stream of CMD_CREATETOOLHELP32SNAPSHOTEX stays within its buffer of 65536 bytes.
use rw_mem.Common.{
  ℕ, ◌+◌, ◌≤◌, ◌≡◌, ◌≢◌, Option, subst, refl, inl, inr, false, some, List, [], ◌∷◌, ◌++◌, ltb, ◌==◌,
  arith, length, store, All, All-append, length-append, length-store, Bool-cases,
}
use rw_mem.Server.Handle.{ModuleListEntry, RegionInfo, HandleInfo, Server}
use rw_mem.Server.Process.Invariant.{IsWellFormed}
use rw_mem.Server.Driver.{read_entries}
use rw_mem.Server.Snapshot.{add_regions}
use rw_mem.Server.Snapshot.Names.{AreModuleNames, read_entries-names, add_regions-names}
use rw_mem.Server.Toolhelp.Walk.{StandsAt}
use rw_mem.Server.Dispatch.{Connection, Machine, returned, send}
use rw_mem.Server.Dispatch.Command.{module_entry}
use rw_mem.Server.Dispatch.Modules.{put_entry, modules_reply, end_of_list, finish_stream}
use rw_mem.Server.Dispatch.Modules.Stream.{put_all, modules_reply_sends}

length-append_store : (n x : ℕ) (ys : List ℕ) → length (store n x ++ ys) ≡ n + length ys
length-append_store n x ys = omega (arith, length-append (store n x) ys, length-store n x)

length-module_entry :
    (me : ModuleListEntry) → length (module_entry (some me)) ≡ 28 + length me.module_name
unfolding module_entry store
length-module_entry me =
    let name = me.module_name in
    omega (
      arith,
      length-append_store 4 1 (
          store 8 me.base_address
          ++ store 4 0
          ++ store 4 me.module_size
          ++ store 4 0
          ++ store 4 (length name)
          ++ name),
      length-append_store 8 me.base_address
          (store 4 0 ++ store 4 me.module_size ++ store 4 0 ++ store 4 (length name) ++ name),
      length-append_store 4 0
          (store 4 me.module_size ++ store 4 0 ++ store 4 (length name) ++ name),
      length-append_store 4 me.module_size (store 4 0 ++ store 4 (length name) ++ name),
      length-append_store 4 0 (store 4 (length name) ++ name),
      length-append_store 4 (length name) name,
    )

-- Every send so far and the stream itself fit the buffer.
abbrev pub Fits : List ℕ × Connection → Type 0
Fits (stream, c) = (length stream ≤ 65536) × All (λ b. length b ≤ 65536) c.sent

put_room :
    (stream entry : List ℕ)
    → ltb 65536 (length stream + length entry) ≡ false
    → length (stream ++ entry) ≤ 65536
put_room stream entry n = ground (arith, length-append stream entry)

put_entry-Fits :
    (me : ModuleListEntry) (out : List ℕ × Connection)
    → length me.module_name ≤ 511
    → Fits out
    → Fits (put_entry me out)
unfolding put_entry send
put_entry-Fits me (stream, c) short (here, before) =
    let entry = module_entry (some me) in
    elim (Bool-cases (ltb 65536 (length stream + length entry))) [
      | inl y ↦
          rw (y, put_entry, send)
            (
              omega (arith, length-module_entry me),
              All-append (λ b. length b ≤ 65536) c.sent (stream ∷ []) before (here, tt),
            )
      | inr n ↦ rw (n, put_entry) (put_room stream entry n, before)
    ]

put_all-Fits :
    (mes : List ModuleListEntry) (out : List ℕ × Connection)
    → All (λ me. length me.module_name ≤ 511) mes
    → Fits out
    → Fits (put_all mes out)
put_all-Fits [] out short fits = fits
put_all-Fits (me ∷ mes) out (here, there) fits =
    put_all-Fits mes (put_entry me out) there (put_entry-Fits me out here fits)

front_names : (a b : List ModuleListEntry) → AreModuleNames (a ++ b) → AreModuleNames a
front_names [] b h = tt
front_names (me ∷ a) b (here, there) = (here, front_names a b there)

length-end_of_list : (garbage : ℕ) → length (end_of_list garbage) ≡ 28
unfolding end_of_list store
length-end_of_list garbage = refl

flush-Fits :
    (garbage : ℕ) (out : List ℕ × Connection)
    → Fits out
    → All (λ b. length b ≤ 65536) (finish_stream garbage out).sent
unfolding finish_stream send
flush-Fits garbage (stream, c) (here, before) =
    let P = λ (b : List ℕ). length b ≤ 65536 in
    let last : All P (end_of_list garbage ∷ []) = (omega (arith, length-end_of_list garbage), tt) in
    elim (Bool-cases (length stream == 0)) [
      | inl y ↦
          rw (y, finish_stream, send) (All-append P c.sent (end_of_list garbage ∷ []) before last)
      | inr n ↦
          rw (n, finish_stream, send)
            (All-append P (c.sent ++ (stream ∷ [])) (end_of_list garbage ∷ [])
              (All-append P c.sent (stream ∷ []) before (here, tt)) last)
    ]

-- The list of modules in a snapshot that is made from the areas that the driver's client reads goes to
-- the client of the server in sends that fit the stream's buffer of 65536 bytes, if what was sent before
-- fits it; and no part of the list fills the stream past its buffer.
pub modules_reply-Fits :
    (m : Machine) (s : Server) (c : Connection) (h : ℕ) (info : HandleInfo)
    (read_magic : ℕ → Option ℕ) (n : ℕ) (mem : List ℕ) (rs : List RegionInfo) (i : ℕ)
    → read_entries n mem ≡ some rs
    → IsWellFormed s
    → h ≢ 0
    → StandsAt h info (add_regions read_magic rs []) s i
    → All (λ b. length b ≤ 65536) c.sent
    → ((before after : List ModuleListEntry)
        → add_regions read_magic rs [] ≡ before ++ after
        → Fits (put_all before ([], c)))
      × ((t : Server) × (c' : Connection) × (modules_reply m h s c ≡ returned t c')
          × All (λ b. length b ≤ 65536) c'.sent)
modules_reply-Fits m s c h info read_magic n mem rs i e w nz stands_there before =
    let l = add_regions read_magic rs [] in
    let short : AreModuleNames l =
      add_regions-names read_magic rs [] (read_entries-names n mem rs e) tt in
    let (t, same, _, _) = modules_reply_sends m s c h info l i w nz stands_there in
    (
      λ first rest split.
          put_all-Fits first ([], c) (front_names first rest (subst AreModuleNames split short))
            (omega arith, before),
      (
        t,
        finish_stream m.garbage (put_all l ([], c)),
        same,
        flush-Fits m.garbage (put_all l ([], c))
            (put_all-Fits l ([], c) short (omega arith, before)),
      ),
    )
