-- ===== src/Server/Driver/Fast/Reader.antt =====
-- The reads of CEServer/MemoryReaderWriter37.hpp on rwmem_read of rwMem/sys.c: from the caller's arguments
-- to the bytes of the process.
use rw_mem.Common.{
  ℕ, ◌≤◌, ◌≡◌, refl, sym, ap, ap₂, ◌∙◌, inl, inr, Bool, true, Option, none, some, List, [], ◌∷◌,
  ◌++◌, ◌==◌, ◌+◌, ◌%◌, ◌^◌, length, length-append, take, drop, load, get_or, arith,
}
use rw_mem.Common.Result.{Result, ok, err}
use rw_mem.Kernel.Memory.{PageTables, Piece, transfer}
use rw_mem.Kernel.Memory.Pieces.{AreJoined}
use rw_mem.Kernel.Memory.Answers.{Answers, serve-Answers}
use rw_mem.Kernel.Paging.{Ptes}
use rw_mem.Kernel.Physical.Copies.{is_copied, got, length-bytes_at}
use rw_mem.Kernel.Transfer.{Kernel, rwmem_read}
use rw_mem.Kernel.Transfer.Refines.{read_tables, contents, sizes}
use rw_mem.Kernel.Transfer.Bytes.{rwmem_read-transfer}
use rw_mem.Server.Driver.Memory.{Transfer}
use rw_mem.Server.Driver.Fast.Laws.{put_over, IsReader}

abbrev pub zeros : ℕ
zeros = 0

-- What `read` returns for what the kernel does.
abbrev pub count : Result ℕ → Option ℕ
count (err e) = none
count (ok n) = some n

-- The call of `read` on the driver's file.
abbrev pub sys_read : Kernel → (ℕ → ℕ) → Ptes → List ℕ → ℕ → Transfer
sys_read k ram ptes buf n = let (r, ptes', buf') = rwmem_read k ram ptes buf n in (count r, buf')

module _ (k : Kernel) (ptes : Ptes) (ram : ℕ → ℕ) where
  abbrev pub pasted_read : List ℕ → Result ℕ × List Piece → Transfer
  pasted_read buf (r, ps) = (count r, contents k ram buf ps ++ drop (sizes ps) buf)

  pub sys_read-transfer :
      (buf : List ℕ) (n : ℕ)
      → 17 ≤ length buf
      → n ≤ length buf
      → sys_read k ram ptes buf n
        ≡ pasted_read buf (transfer (read_tables k ptes) (some (take 17 buf)) n)
  sys_read-transfer buf n long room =
      ap (λ (x : Result ℕ × Ptes × List ℕ). (count x.0, x.2))
        (rwmem_read-transfer k ptes ram buf n room long)

  pub transfer-Answers :
      (h : List ℕ) (n : ℕ)
      → Answers
          (read_tables k ptes)
          (load (take 8 h) % 2 ^ 32)
          (load (take 8 (drop 8 h)))
          n
          (get_or h 16 0 == 1)
          (transfer (read_tables k ptes) (some h) n)
  unfolding transfer
  transfer-Answers h n =
      serve-Answers (read_tables k ptes) (load (take 8 h) % 2 ^ 32) (load (take 8 (drop 8 h)))
        (get_or h 16 0 == 1) n

joined_total :
    (tables : PageTables) (pid address : ℕ) (force : Bool) (from to : ℕ) (ps : List Piece)
    → AreJoined tables pid address force from to ps
    → from + sizes ps ≡ to
joined_total tables pid address force from to [] joined = omega arith
joined_total tables pid address force from to (p ∷ ps)
      (offset, some_byte, inside, here, reached, joined) =
    omega (arith, joined_total tables pid address force (from + p.size) to ps joined)

-- A kernel whose copies are all made: what it puts to the buffer is for the request to say.
module _ (k : Kernel) (copies : (phy_addr n : ℕ) → is_copied k.ram k.total_memory phy_addr n ≡ true)
    (ptes : Ptes) (ram : ℕ → ℕ) where
  length-got_all : (a n : ℕ) (buf : List ℕ) → length (got k.ram k.total_memory ram a n buf) ≡ n
  length-got_all a n buf = rw (copies a n) (length-bytes_at ram a n)

  length-contents_all : (ps : List Piece) (buf : List ℕ) → length (contents k ram buf ps) ≡ sizes ps
  length-contents_all [] buf = refl
  length-contents_all (p ∷ ps) buf = omega (
    arith,
    length-append (got k.ram k.total_memory ram p.phy_addr p.size buf)
        (contents k ram (drop p.size buf) ps),
    length-got_all p.phy_addr p.size buf,
    length-contents_all ps (drop p.size buf),
  )

  contents_any : (ps : List Piece) (a b : List ℕ) → contents k ram a ps ≡ contents k ram b ps
  contents_any [] a b = refl
  contents_any (p ∷ ps) a b =
      rw (copies p.phy_addr p.size, contents_any ps (drop p.size a) (drop p.size b)) refl

  abbrev pub copied : Result ℕ × List Piece → Option (List ℕ)
  copied (err e, ps) = none
  copied (ok n, ps) = some (contents k ram [] ps)

  pub pasted_read-put_over :
      (pid address n : ℕ) (force : Bool) (buf : List ℕ) (r : Result ℕ) (ps : List Piece)
      → Answers (read_tables k ptes) pid address n force (r, ps)
      → pasted_read k ptes ram buf (r, ps) ≡ put_over buf (copied (r, ps))
  pasted_read-put_over pid address n force buf r ps (inl (no_pid, e, nil)) =
      ap₂ (λ (x : Result ℕ) (l : List Piece). pasted_read k ptes ram buf (x, l)) e nil
      ∙ sym (ap₂ (λ (x : Result ℕ) (l : List Piece). put_over buf (copied (x, l))) e nil)
  pasted_read-put_over pid address n force buf r ps (inr (inl (f, c, e, nil))) =
      ap₂ (λ (x : Result ℕ) (l : List Piece). pasted_read k ptes ram buf (x, l)) e nil
      ∙ sym (ap₂ (λ (x : Result ℕ) (l : List Piece). put_over buf (copied (x, l))) e nil)
  pasted_read-put_over pid address n force buf r ps (inr (inr (total, e, joined, ends))) =
      let sum = joined_total (read_tables k ptes) pid address force 0 total ps joined in
      ap (λ (x : Result ℕ). pasted_read k ptes ram buf (x, ps)) e
      ∙ rw (contents_any ps buf []) (
          ap₂ (λ (x y : ℕ). (some x, contents k ram [] ps ++ drop y buf)) {x = total}
            {y = length (contents k ram [] ps)} (omega (arith, sum, length-contents_all ps []))
            (sym (length-contents_all ps [])))
      ∙ sym (ap (λ (x : Result ℕ). put_over buf (copied (x, ps))) e)

  -- The driver's read puts what it copies over the start of the buffer, and the request's 17 bytes say what.
  abbrev pub kernel_reader : IsReader (sys_read k ram ptes)
  kernel_reader = record {
    answer_to = λ h n. copied (transfer (read_tables k ptes) (some h) n);
    reads = λ buf n long room.
        let h = take 17 buf in
        let (r, ps) = transfer (read_tables k ptes) (some h) n in
        sys_read-transfer k ptes ram buf n long room
        ∙ pasted_read-put_over (load (take 8 h) % 2 ^ 32) (load (take 8 (drop 8 h))) n
            (get_or h 16 0 == 1) buf r ps (transfer-Answers k ptes ram h n);
  }
