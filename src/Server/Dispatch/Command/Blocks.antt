-- ===== src/Server/Dispatch/Command/Blocks.antt =====
-- What a client of CEServer/main.cpp receives of a memory read that it asked to have compressed, and of
-- the areas of a process.
use rw_mem.Common.{
  ℕ, zero, suc, ◌*◌, ◌≤◌, ◌≡◌, ap, ◌∙◌, inl, inr, false, List, [], ◌∷◌, ◌++◌, leb, ◌==◌,
  if◌then◌else◌, arith, length, take, drop, All, append-nil, length-take, length-drop,
  take-append-drop, Bool-cases, leb→le, store,
}
use rw_mem.Server.Dispatch.{Machine}
use rw_mem.Server.Dispatch.Command.{blocks, read_reply}

abbrev pub joined : List (List ℕ) → List ℕ
joined [] = []
joined (b ∷ bs) = b ++ joined bs

blocks_lem :
    (fuel : ℕ) (xs : List ℕ)
    → length xs ≤ 65536 * suc fuel
    → (joined (blocks fuel xs) ≡ xs) × All (λ b. length b ≤ 65536) (blocks fuel xs)
unfolding blocks
blocks_lem zero xs enough = (append-nil xs, (omega arith, tt))
blocks_lem (suc fuel) xs enough =
    let (whole, small) = blocks_lem fuel (drop 65536 xs) (omega (arith, length-drop 65536 xs)) in
    elim (Bool-cases (leb (length xs) 65536)) [
      | inl y ↦ rw (y, blocks) (append-nil xs, (leb→le (length xs) 65536 y, tt))
      | inr n ↦
          rw (n, blocks)
            (
              ap (λ ys. take 65536 xs ++ ys) whole ∙ take-append-drop 65536 xs,
              (omega (arith, length-take 65536 xs), small),
            )
    ]

-- A memory read is answered by the count and as many bytes of the buffer; at a level of compression
-- by the count, the size of the compressed bytes, and these, in sends of at most 65536 bytes that
-- together are all of them.
pub read_reply_lem :
    (m : Machine) (level read : ℕ) (buffer : List ℕ)
    → let packed = m.compress level (take read buffer) in
      (joined (read_reply m level read buffer) ≡ (
        if level == 0
        then store 4 read ++ take read buffer
        else store 4 read ++ (store 4 (length packed) ++ packed)))
      × ((level == 0 ≡ false) → All (λ b. length b ≤ 65536) (read_reply m level read buffer))
unfolding read_reply store
read_reply_lem m level read buffer =
    let packed = m.compress level (take read buffer) in
    let (whole, small) = blocks_lem (length packed) packed (omega arith) in
    elim (Bool-cases (level == 0)) [
      | inl y ↦ (
        rw (y, read_reply) (append-nil (store 4 read ++ take read buffer)),
        λ n. absurd (ground arith),
      )
      | inr n ↦ (
        rw (n, read_reply) (ap (λ ys. store 4 read ++ (store 4 (length packed) ++ ys)) whole),
        λ _. rw (n, read_reply) (omega arith, (omega arith, small)),
      )
    ]
