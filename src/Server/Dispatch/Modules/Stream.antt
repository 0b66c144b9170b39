-- ===== src/Server/Dispatch/Modules/Stream.antt =====
-- What the client of CMD_CREATETOOLHELP32SNAPSHOTEX receives.
use rw_mem.Common.{
  ℕ, zero, suc, ◌+◌, ◌≡◌, refl, sym, ap, ◌∙◌, ◌≢◌, inl, inr, none, some, List, [], ◌∷◌, ◌++◌, ltb,
  ◌==◌, if◌then◌else◌, arith, length, append_assoc, append-nil, Option-cases, Bool-cases,
  append-eq_nil, lookup, ==_false, ==_self,
}
use rw_mem.Server.Handle.{HandleInfo, module_list, Server, ModuleListEntry, get_pointer_from_handle}
use rw_mem.Server.Toolhelp.{module32_first, module32_next, walk, walk_from, put}
use rw_mem.Server.Toolhelp.Walk.{walk_lem, StandsAt}
use rw_mem.Server.Dispatch.{Connection, Machine, returned, send, called}
use rw_mem.Server.Dispatch.Command.{module_entry}
use rw_mem.Server.Process.{close_handle}
use rw_mem.Server.Process.Invariant.{IsWellFormed}
use rw_mem.Server.Process.Preserve.{close_handle_lem}
use rw_mem.Server.Process.Replace.{replaced-IsWellFormed}
use rw_mem.Server.Dispatch.Modules.{
  put_entry, modules_reply, closed_after, rounds, module_loop, stream_modules, end_of_list,
  finish_stream,
}

-- The bytes of all sends, in order.
abbrev pub bytes_of : List (List ℕ) → List ℕ
bytes_of [] = []
bytes_of (b ∷ bs) = b ++ bytes_of bs

-- The entries of a list of modules, one behind the other.
abbrev pub entries : List ModuleListEntry → List ℕ
entries [] = []
entries (me ∷ mes) = module_entry (some me) ++ entries mes

-- The rounds' entries put into the stream.
abbrev pub put_all : List ModuleListEntry → List ℕ × Connection → List ℕ × Connection
put_all [] out = out
put_all (me ∷ mes) out = put_all mes (put_entry me out)

-- the loop sends what it walks over
module_loop-put_all :
    (fuel : ℕ) (s : Server) (r : ℕ) (me : ModuleListEntry) (out : List ℕ × Connection)
    (mes : List ModuleListEntry) (t : Server)
    → walk_from fuel s r me ≡ some (mes, t)
    → module_loop fuel s r me out ≡ some (put_all mes out, t)
unfolding module_loop walk_from
module_loop-put_all zero s r me out mes t e = absurd (ground arith)
module_loop-put_all (suc fuel) s r me out mes t e = elim (Option-cases (module32_next s r)) [
  | inl z ↦ absurd (ground arith)
  | inr ((next, s'), q) ↦ elim (Option-cases next) [
    | inl z ↦ ground arith
    | inr (me', z) ↦ elim (Option-cases (walk_from fuel s' r me')) [
      | inl y ↦ absurd (ground arith)
      | inr ((mes', t'), y) ↦
          ground (arith, module_loop-put_all fuel s' r me' (put_entry me out) mes' t' y)
    ]
  ]
]

stream_modules-put_all :
    (fuel : ℕ) (s : Server) (r : ℕ) (out : List ℕ × Connection) (mes : List ModuleListEntry)
    (t : Server)
    → walk fuel s r ≡ some (mes, t)
    → stream_modules fuel s r out ≡ some (put_all mes out, t)
unfolding stream_modules walk
stream_modules-put_all fuel s r out mes t e = elim (Bool-cases (r == 0)) [
  | inl y ↦ ground arith
  | inr n ↦ elim (Option-cases (module32_first s r)) [
    | inl z ↦ absurd (ground arith)
    | inr ((first, s'), q) ↦ elim (Option-cases first) [
      | inl z ↦ ground arith
      | inr (me, z) ↦ ground (arith, module_loop-put_all fuel s' r me out mes t)
    ]
  ]
]

bytes_of-append : (bs : List (List ℕ)) (b : List ℕ) → bytes_of (bs ++ (b ∷ [])) ≡ bytes_of bs ++ b
bytes_of-append [] b = append-nil b
bytes_of-append (x ∷ bs) b =
    ap (λ ys. x ++ ys) (bytes_of-append bs b) ∙ sym (append_assoc x (bytes_of bs) b)

-- what has been sent, and then the stream
abbrev so_far : List ℕ × Connection → List ℕ
so_far (stream, c) = bytes_of c.sent ++ stream

put_entry-so_far :
    (me : ModuleListEntry) (out : List ℕ × Connection)
    → so_far (put_entry me out) ≡ so_far out ++ module_entry (some me)
unfolding put_entry send
put_entry-so_far me (stream, c) =
    let entry = module_entry (some me) in
    elim (Bool-cases (ltb 65536 (length stream + length entry))) [
      | inl y ↦ rw (y, put_entry, send, bytes_of-append c.sent stream) refl
      | inr n ↦ rw (n, put_entry) (sym (append_assoc (bytes_of c.sent) stream entry))
    ]

put_all-so_far :
    (mes : List ModuleListEntry) (out : List ℕ × Connection)
    → so_far (put_all mes out) ≡ so_far out ++ entries mes
put_all-so_far [] out = sym (append-nil (so_far out))
put_all-so_far (me ∷ mes) out =
    put_all-so_far mes (put_entry me out)
    ∙ ap (λ xs. xs ++ entries mes) (put_entry-so_far me out)
    ∙ append_assoc (so_far out) (module_entry (some me)) (entries mes)

finish_stream-bytes :
    (garbage : ℕ) (out : List ℕ × Connection)
    → bytes_of (finish_stream garbage out).sent ≡ so_far out ++ end_of_list garbage
unfolding finish_stream send
finish_stream-bytes garbage (stream, c) = elim (Bool-cases (length stream == 0)) [
  | inl y ↦
      let nil : stream ≡ [] = append-eq_nil stream (ground arith) in
      rw (y, finish_stream, send, bytes_of-append c.sent (end_of_list garbage), nil, append-nil)
        refl
  | inr n ↦
      rw
        (
          n,
          finish_stream,
          send,
          bytes_of-append (c.sent ++ (stream ∷ [])) (end_of_list garbage),
          bytes_of-append c.sent stream,
        )
        refl
]

modules_reply_ends :
    (m : Machine) (s t u : Server) (c : Connection) (h : ℕ) (out : List ℕ × Connection)
    → h ≢ 0
    → stream_modules (rounds (s.heap (get_pointer_from_handle s h))) s h ([], c) ≡ some (out, t)
    → close_handle t h ≡ some u
    → modules_reply m h s c ≡ returned u (finish_stream m.garbage out)
unfolding modules_reply called closed_after
modules_reply_ends m s t u c h out nz e f =
    rw (modules_reply, e, called, closed_after, ==_false h 0 nz, f) refl

all_bytes :
    (garbage : ℕ) (l : List ModuleListEntry) (c : Connection)
    → bytes_of (finish_stream garbage (put_all l ([], c))).sent
      ≡ bytes_of c.sent ++ (entries l ++ end_of_list garbage)
all_bytes garbage l c =
    finish_stream-bytes garbage (put_all l ([], c))
    ∙ ap (λ xs. xs ++ end_of_list garbage)
        (put_all-so_far l ([], c) ∙ ap (λ xs. xs ++ entries l) (append-nil (bytes_of c.sent)))
    ∙ append_assoc (bytes_of c.sent) (entries l) (end_of_list garbage)

stands :
    (s : Server) (h : ℕ) (info : HandleInfo)
    → lookup h s.handles ≡ some info
    → get_pointer_from_handle s h ≡ info.p
unfolding get_pointer_from_handle
stands s h info a = ground arith

-- The rounds put the whole list into the stream, and what is left of the table and the heap is in step.
pub modules_reply_sends :
    (m : Machine) (s : Server) (c : Connection) (h : ℕ) (info : HandleInfo)
    (l : List ModuleListEntry) (i : ℕ)
    → IsWellFormed s
    → h ≢ 0
    → StandsAt h info l s i
    → (t : Server) × (modules_reply m h s c
        ≡ returned t (finish_stream m.garbage (put_all l ([], c))))
      × IsWellFormed t
      × (lookup h t.handles ≡ none)
modules_reply_sends m s c h info l i w nz (a, b, d) =
    let p = get_pointer_from_handle s h in
    let at_p : p ≡ info.p = stands s h info a in
    let ended : Server = put s info.p (module_list l (length l)) in
    let w' : IsWellFormed ended =
      replaced-IsWellFormed s w info.p (module_list l i) (module_list l (length l)) d refl in
    let out = put_all l ([], c) in
    let (u, closed, w'', gone) = close_handle_lem ended h w' in
    let many : rounds (s.heap p) ≡ length l = ap (λ q. rounds (s.heap q)) at_p ∙ ap rounds d in
    let streamed : stream_modules (rounds (s.heap p)) s h ([], c) ≡ some (out, ended) =
      stream_modules-put_all (rounds (s.heap p)) s h ([], c) l ended
        (walk_lem h info l s i (rounds (s.heap p)) nz (a, b, d) (omega (arith, many))) in
    (
      u,
      modules_reply_ends m s ended u c h out nz streamed closed,
      w'',
      gone h ∙ ap (λ b. if b then none else lookup h s.handles) (==_self h),
    )

-- Of a module snapshot the client receives every module once and in order, and then the end of the
-- list, however the stream is cut into sends; afterwards the snapshot's handle is closed, and the
-- table and the heap are in step.
pub modules_reply_lem :
    (m : Machine) (s : Server) (c : Connection) (h : ℕ) (info : HandleInfo)
    (l : List ModuleListEntry) (i : ℕ)
    → IsWellFormed s
    → h ≢ 0
    → StandsAt h info l s i
    → (t : Server) × (c' : Connection) × (modules_reply m h s c ≡ returned t c')
      × (bytes_of c'.sent ≡ bytes_of c.sent ++ (entries l ++ end_of_list m.garbage))
      × IsWellFormed t
      × (lookup h t.handles ≡ none)
modules_reply_lem m s c h info l i w nz stands_there =
    let (u, same, w', gone) = modules_reply_sends m s c h info l i w nz stands_there in
    (u, finish_stream m.garbage (put_all l ([], c)), same, all_bytes m.garbage l c, w', gone)
