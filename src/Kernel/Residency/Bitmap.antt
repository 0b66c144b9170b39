-- ===== src/Kernel/Residency/Bitmap.antt =====
-- The bits that IOCTL_CHECK_PROCESS_ADDR_PHY of rwMem/sys.c hands over.
use rw_mem.Common.{
  ℕ, ◌+◌, ◌-◌, ◌*◌, ◌/◌, ◌%◌, ◌≤◌, ◌<◌, ◌≡◌, refl, ap, ap₂, subst, ◌∙◌, inl, inr, Bool, true, ◌||◌,
  List, ◌++◌, ltb, ◌==◌, length, take, drop, get_or, set_bit, test_bit, arith, Bool-cases,
  ltb-false, ltb→lt, ltb_ge, set_bit-lt, test_bit-set_bit, length-set, get_or-set, get_or-append_lt,
  get_or-append_ge, get_or-take, length-append, length-take, length-drop, drop-append_eq,
  drop-append_ge, drop-drop,
}
use rw_mem.Kernel.Residency.{mark_page, copy_to_user, last_copy}

-- The bit of a page.
unfoldable pub bit_at : List ℕ → ℕ → Bool
bit_at buf p = test_bit (get_or buf (p / 8) 0) (p % 8)

abbrev pub AreBytes : List ℕ → Type 0
AreBytes buf = (j : ℕ) → get_or buf j 0 < 256

-- Memory that holds `n` bits now, and is as it was past their last byte.
pub record Holds (want : ℕ → Bool) (n : ℕ) (old new : List ℕ) : Type 0 where
  pub same_length : length new ≡ length old
  pub bits : (p : ℕ) → p < n → bit_at new p ≡ want p
  pub untouched : drop ((n + 7) / 8) new ≡ drop ((n + 7) / 8) old

module _ (buf : List ℕ) (i : ℕ) (within : i / 8 < length buf) (bytes : AreBytes buf) where
  pub mark_page-bit_at : (p : ℕ) → bit_at (mark_page buf i) p ≡ ((i == p) || bit_at buf p)
  unfolding mark_page bit_at
  mark_page-bit_at p = ground (
    arith,
    get_or-set buf (i / 8) (p / 8) (set_bit (get_or buf (i / 8) 0) (i % 8)) 0 within,
    test_bit-set_bit (get_or buf (i / 8) 0) (i % 8) (bytes (i / 8)) (omega arith) (p % 8)
        (omega arith),
  )

  pub mark_page-AreBytes : AreBytes (mark_page buf i)
  unfolding mark_page
  mark_page-AreBytes j = ground (
    arith,
    get_or-set buf (i / 8) j (set_bit (get_or buf (i / 8) 0) (i % 8)) 0 within,
    set_bit-lt (get_or buf (i / 8) 0) (i % 8) (bytes (i / 8)) (omega arith),
    bytes j,
  )

  pub length-mark_page : length (mark_page buf i) ≡ length buf
  unfolding mark_page
  length-mark_page = length-set buf (i / 8) (set_bit (get_or buf (i / 8) 0) (i % 8))

pub last_copy-Holds :
    (i : ℕ) (buf mem : List ℕ)
    → i ≤ 8 * length buf
    → (i + 7) / 8 ≤ length mem
    → ((last_copy i buf mem).0 ≡ true) × Holds (bit_at buf) i mem (last_copy i buf mem).1
unfolding last_copy copy_to_user
last_copy-Holds i buf mem fits room = elim (Bool-cases (i == 0)) [
  | inl z ↦
      rw z
        (refl, record { same_length = refl; bits = λ p h. absurd (ground arith); untouched = refl })
  | inr n ↦
      let k = (i + 7) / 8 in
      rw (n, ltb-false (length mem) k room)
        (
          refl,
          record {
            same_length = omega (
              arith,
              length-append (take k buf) (drop k mem),
              length-take k buf,
              length-drop k mem,
            );
            bits = λ p h.
                unfold bit_at in
                ap (λ (b : ℕ). test_bit b (p % 8))
                  (get_or-append_lt (take k buf) (drop k mem) (p / 8) 0
                      (omega (arith, length-take k buf))
                    ∙ get_or-take k buf (p / 8) 0 (omega arith));
            untouched =
                drop-append_eq k (take k buf) (drop k mem) (omega (arith, length-take k buf));
          },
        )
]

-- A full buffer of bits, and what the rest of the loop writes behind it.
pub Holds-append :
    (want later : ℕ → Bool) (n : ℕ) (buf mem rest : List ℕ)
    → length buf ≡ 1024
    → 1024 ≤ length mem
    → ((p : ℕ) → p < 8192 → bit_at buf p ≡ want p)
    → ((p : ℕ) → later p ≡ want (8192 + p))
    → Holds later n (drop 1024 mem) rest
    → Holds want (8192 + n) mem (buf ++ rest)
unfolding bit_at
Holds-append want later n buf mem rest full room here there h = record {
  same_length = omega (arith, length-append buf rest, h.same_length, length-drop 1024 mem);
  bits = λ p lt. elim (Bool-cases (ltb p 8192)) [
    | inl y ↦
        ap (λ (b : ℕ). test_bit b (p % 8))
          (get_or-append_lt buf rest (p / 8) 0 (omega (arith, ltb→lt p 8192 y)))
        ∙ here p (ltb→lt p 8192 y)
    | inr m ↦
        let past = ltb_ge p 8192 m in
        ap (λ (b : ℕ). test_bit b (p % 8)) (get_or-append_ge buf rest (p / 8) 0 (omega arith))
        ∙ ap₂ (λ (j k : ℕ). test_bit (get_or rest j 0) k) {x = p / 8 - length buf}
            {y = (p - 8192) / 8} {u = p % 8} {v = (p - 8192) % 8} (omega arith) (omega arith)
        ∙ h.bits (p - 8192) (omega arith)
        ∙ there (p - 8192)
        ∙ ap want {x = 8192 + (p - 8192)} {y = p} (omega arith)
  ];
  untouched =
      drop-append_ge ((8192 + n + 7) / 8) buf rest (omega arith)
      ∙ ap (λ (k : ℕ). drop k rest) {x = (8192 + n + 7) / 8 - length buf} {y = (n + 7) / 8}
          (omega arith)
      ∙ h.untouched
      ∙ drop-drop ((n + 7) / 8) 1024 mem
      ∙ ap (λ (k : ℕ). drop k mem) {x = 1024 + (n + 7) / 8} {y = (8192 + n + 7) / 8} (omega arith);
}

-- A run of the loop that made every copy, and what it wrote.
abbrev pub Copies : (ℕ → Bool) → ℕ → List ℕ → Bool × List ℕ → Type 0
Copies want n mem (copied, new) = (copied ≡ true) × Holds want n mem new

pub Copies-want :
    (want want' : ℕ → Bool) (n n' : ℕ) (mem : List ℕ) (r : Bool × List ℕ)
    → n ≡ n'
    → ((p : ℕ) → p < n → want p ≡ want' p)
    → Copies want n mem r
    → Copies want' n' mem r
Copies-want want want' n n' mem r e same (c, h) =
    subst (λ k. Copies want' k mem r) e
      (
        c,
        record {
          same_length = h.same_length;
          bits = λ p lt. h.bits p lt ∙ same p lt;
          untouched = h.untouched;
        },
      )
