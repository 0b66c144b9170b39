-- ===== src/Kernel/Residency/Rounds.antt =====
-- The rounds of IOCTL_CHECK_PROCESS_ADDR_PHY of rwMem/sys.c, one for each page.
use rw_mem.Common.{
  ℕ, zero, suc, ◌+◌, ◌-◌, ◌*◌, ◌/◌, ◌%◌, ◌^◌, ◌≤◌, ◌<◌, ◌≡◌, refl, sym, ap, subst, ◌∙◌, ◌⊎◌, inl,
  inr, Bool, true, false, List, ◌++◌, ltb, ◌==◌, ==_iff, if◌then◌else◌, length, drop, replicate,
  arith, Bool-cases, ltb-false, length-replicate, lt→ltb, test_bit_zero, get_or-replicate,
  length-drop, take-append_eq, drop-append_eq, take_all,
}
use rw_mem.Kernel.Residency.{mark_page, copy_to_user, last_copy, check_loop}
use rw_mem.Kernel.Residency.Bitmap.{
  bit_at, AreBytes, Copies, Copies-want, Holds-append, last_copy-Holds, mark_page-bit_at,
  mark_page-AreBytes, length-mark_page,
}

abbrev pub zeros : ℕ
zeros = 0

module _ (resident : ℕ → Bool) (end buf_len : ℕ) where
  -- The bits that the loop is to hand over: those it has, and those of the pages to come.
  abbrev pub wanted : ℕ → ℕ → List ℕ → ℕ → Bool
  wanted addr i buf p = if ltb p i then bit_at buf p else resident (addr + 4096 * (p - i))

  abbrev marked : ℕ → ℕ → List ℕ → List ℕ
  marked addr i buf = if resident addr then mark_page buf i else buf

  abbrev next : ℕ → ℕ
  next addr = (addr + 4096) % 2 ^ 64

  check_loop-on :
      (rounds addr i : ℕ) (buf mem : List ℕ)
      → ltb addr end ≡ true
      → (i + 1 == 8192) ≡ false
      → check_loop resident end buf_len (suc rounds) addr i buf mem
        ≡ check_loop resident end buf_len rounds (next addr) (i + 1) (marked addr i buf) mem
  unfolding check_loop
  check_loop-on rounds addr i buf mem y n = rw (y, n, check_loop) refl

  check_loop_full :
      (rounds addr i : ℕ) (buf mem : List ℕ)
      → ltb addr end ≡ true
      → (i + 1 == 8192) ≡ true
      → length (marked addr i buf) ≡ 1024
      → buf_len ≡ 1024
      → 1024 ≤ length mem
      → let r =
          check_loop resident end buf_len rounds
            (next addr)
            0
            (replicate buf_len 0)
            (drop 1024 mem) in
        check_loop resident end buf_len (suc rounds) addr i buf mem
        ≡ (r.0, marked addr i buf ++ r.1)
  unfolding check_loop copy_to_user
  check_loop_full rounds addr i buf mem y full len e room =
      let b = marked addr i buf in
      let whole = take_all buf_len b (omega arith) in
      let taken = take-append_eq 1024 b (drop buf_len mem) (sym len) in
      let dropped = drop-append_eq 1024 b (drop buf_len mem) (sym len) in
      rw
        (
          y,
          full,
          ltb-false (length mem) buf_len (omega arith),
          whole,
          taken,
          dropped,
          e,
          check_loop,
        )
        refl

  -- One round: the bit of its page is set as it should be.
  module _ (addr i : ℕ) (buf : List ℕ) (within : i / 8 < length buf) (bytes : AreBytes buf)
      (clear : (p : ℕ) → i ≤ p → bit_at buf p ≡ false) (top : addr + 4096 < 2 ^ 64) where
    marked-wanted : (p : ℕ) → wanted (next addr) (i + 1) (marked addr i buf) p ≡ wanted addr i buf p
    marked-wanted p = elim (Bool-cases (ltb p i)) [
      | inl y ↦ ground (arith, mark_page-bit_at buf i within bytes p)
      | inr m ↦ elim (Bool-cases (p == i)) [
        | inl e ↦ ground (
          arith,
          mark_page-bit_at buf i within bytes p,
          clear p,
          ap resident {x = addr} {y = addr + 4096 * (p - i)} (ground arith),
          ap resident {x = addr} {y = addr + 4096 * (i - i)} (omega arith),
        )
        | inr n ↦ ground (
          arith,
          ap resident {x = next addr + 4096 * (p - (i + 1))} {y = addr + 4096 * (p - i)}
              (ground arith),
        )
      ]
    ]

    marked_clear : (p : ℕ) → i + 1 ≤ p → bit_at (marked addr i buf) p ≡ false
    marked_clear p h = ground (arith, mark_page-bit_at buf i within bytes p, clear p)

    marked-AreBytes : AreBytes (marked addr i buf)
    marked-AreBytes j = ground (arith, mark_page-AreBytes buf i within bytes j, bytes j)

    length-marked : length (marked addr i buf) ≡ length buf
    length-marked = ground (arith, length-mark_page buf i within bytes)

  fewer :
      (i rounds : ℕ) (buf : List ℕ)
      → length buf ≡ buf_len
      → i < 8192
      → (buf_len ≡ 1024) ⊎ (i + rounds ≤ 8 * buf_len)
      → i ≤ 8 * length buf
  fewer i rounds buf len low (inl e) = omega arith
  fewer i rounds buf len low (inr h) = omega arith

  within_buf :
      (i rounds : ℕ) (buf : List ℕ)
      → length buf ≡ buf_len
      → i < 8192
      → (buf_len ≡ 1024) ⊎ (i + suc rounds ≤ 8 * buf_len)
      → i / 8 < length buf
  within_buf i rounds buf len low (inl e) = omega arith
  within_buf i rounds buf len low (inr h) = omega arith

  one_more :
      (i rounds : ℕ)
      → (buf_len ≡ 1024) ⊎ (i + suc rounds ≤ 8 * buf_len)
      → (buf_len ≡ 1024) ⊎ (i + 1 + rounds ≤ 8 * buf_len)
  one_more i rounds (inl e) = inl e
  one_more i rounds (inr h) = inr (omega arith)

  whole_buf :
      (i rounds : ℕ)
      → (i + 1 == 8192) ≡ true
      → buf_len ≤ 1024
      → (buf_len ≡ 1024) ⊎ (i + suc rounds ≤ 8 * buf_len)
      → buf_len ≡ 1024
  whole_buf i rounds full short (inl e) = e
  whole_buf i rounds full short (inr h) = ground arith

  pub bit_at_zeros : (p : ℕ) → bit_at (replicate buf_len 0) p ≡ false
  unfolding bit_at
  bit_at_zeros p = rw (get_or-replicate buf_len zeros (p / 8)) (test_bit_zero (p % 8))

  joined_here :
      (addr i : ℕ) (buf : List ℕ) (p : ℕ)
      → p < 8192
      → i + 1 ≡ 8192
      → wanted (next addr) (i + 1) (marked addr i buf) p ≡ wanted addr i buf p
      → bit_at (marked addr i buf) p ≡ wanted addr i buf p
  joined_here addr i buf p lt last same = rw (lt→ltb p (i + 1) (omega arith)) at same

  joined_there :
      (addr i : ℕ) (buf : List ℕ) (p : ℕ)
      → i + 1 ≡ 8192
      → addr + 4096 < 2 ^ 64
      → wanted (next addr) 0 (replicate buf_len 0) p ≡ wanted addr i buf (8192 + p)
  joined_there addr i buf p last top =
      rw (ltb-false p 0 (omega arith), ltb-false (8192 + p) i (omega arith))
        (ap resident (omega arith))

  pub check_loop-Copies :
      (rounds addr i : ℕ) (buf mem : List ℕ)
      → length buf ≡ buf_len
      → AreBytes buf
      → ((p : ℕ) → i ≤ p → bit_at buf p ≡ false)
      → i < 8192
      → buf_len ≤ 1024
      → (buf_len ≡ 1024) ⊎ (i + rounds ≤ 8 * buf_len)
      → (i + rounds + 7) / 8 ≤ length mem
      → addr + 4096 * rounds ≡ end
      → end < 2 ^ 64
      → Copies
          (wanted addr i buf)
          (i + rounds)
          mem
          (check_loop resident end buf_len rounds addr i buf mem)
  check_loop-Copies zero addr i buf mem len bytes clear low short fits room ends top =
      unfold check_loop in
      Copies-want (bit_at buf) (wanted addr i buf) i (i + 0) mem (last_copy i buf mem) (omega arith)
        (λ p h. ground arith)
        (last_copy-Holds i buf mem (fewer i zero buf len low fits) (omega arith))
  check_loop-Copies (suc rounds) addr i buf mem len bytes clear low short fits room ends top =
      let y : ltb addr end ≡ true = lt→ltb addr end (omega arith) in
      let within = within_buf i rounds buf len low fits in
      let buf' = marked addr i buf in
      let w = marked-wanted addr i buf within bytes clear (omega arith) in
      let len' : length buf' ≡ buf_len =
        length-marked addr i buf within bytes clear (omega arith) ∙ len in
      elim (Bool-cases (i + 1 == 8192)) [
        | inr n ↦
            subst (Copies (wanted addr i buf) (i + suc rounds) mem)
              (sym (check_loop-on rounds addr i buf mem y n))
              (Copies-want (wanted (next addr) (i + 1) buf') (wanted addr i buf) (i + 1 + rounds)
                (i + suc rounds) mem _ (omega arith) (λ p h. w p)
                (check_loop-Copies rounds (next addr) (i + 1) buf' mem len'
                  (marked-AreBytes addr i buf within bytes clear (omega arith))
                  (marked_clear addr i buf within bytes clear (omega arith)) (ground arith) short
                  (one_more i rounds fits) (omega arith) (omega arith) top))
        | inl full ↦
            let last : i + 1 ≡ 8192 = (==_iff (i + 1) 8192).0 full in
            let e = whole_buf i rounds full short fits in
            let (copied, h) =
              check_loop-Copies rounds (next addr) 0 (replicate buf_len 0) (drop 1024 mem)
                (length-replicate buf_len zeros)
                (λ j. omega (arith, get_or-replicate buf_len zeros j)) (λ p h. bit_at_zeros p)
                (omega arith) short (inl e) (omega (arith, length-drop 1024 mem)) (omega arith)
                top in
            let room' : 1024 ≤ length mem = ground arith in
            subst (Copies (wanted addr i buf) (i + suc rounds) mem)
              (sym (check_loop_full rounds addr i buf mem y full (len' ∙ e) e room'))
              (Copies-want (wanted addr i buf) (wanted addr i buf) (8192 + (0 + rounds))
                (i + suc rounds) mem _ (ground arith) (λ p h. refl)
                (
                  copied,
                  Holds-append (wanted addr i buf) (wanted (next addr) 0 (replicate buf_len 0))
                      (0 + rounds) buf' mem _ (len' ∙ e) room'
                      (λ p lt. joined_here addr i buf p lt last (w p))
                      (λ p. joined_there addr i buf p last (omega arith)) h,
                ))
      ]
