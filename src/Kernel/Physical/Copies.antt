-- ===== src/Kernel/Physical/Copies.antt =====
-- A copy within a page by rwMem/phy_mem.h, whether it is made or fails.
use rw_mem.Common.{
  ℕ, zero, suc, ◌+◌, ◌-◌, ◌%◌, ◌^◌, ◌≤◌, ◌<◌, ◌≡◌, refl, sym, ap, subst, if◌then◌else◌, ◌&&◌, Bool,
  Bool-cases, inl, inr, length-take, take-append-drop, ◌∙◌, true, false, List, ◌++◌, ltb, ◌==◌,
  ltb-false, arith, length, take, drop, get_or,
}
use rw_mem.Kernel.Memory.{size_inside_page}
use rw_mem.Kernel.Physical.{
  Ram, check_phys_addr_valid_range, bytes_at, put_bytes, read_ram_loop, read_ram_physical_addr,
  write_ram_loop, write_ram_physical_addr,
}

pub length-bytes_at : (ram : ℕ → ℕ) (phy_addr n : ℕ) → length (bytes_at ram phy_addr n) ≡ n
unfolding bytes_at
length-bytes_at ram phy_addr zero = refl
length-bytes_at ram phy_addr (suc n) = ap suc (length-bytes_at ram (phy_addr + 1) n)

pub get_or-bytes_at :
    (ram : ℕ → ℕ) (phy_addr n j d : ℕ)
    → j < n
    → get_or (bytes_at ram phy_addr n) j d ≡ ram (phy_addr + j)
unfolding bytes_at
get_or-bytes_at ram phy_addr zero j d h = absurd (omega arith)
get_or-bytes_at ram phy_addr (suc n) zero d h = ap ram (omega arith)
get_or-bytes_at ram phy_addr (suc n) (suc j) d h =
    get_or-bytes_at ram (phy_addr + 1) n j d (omega arith) ∙ ap ram (omega arith)

-- Whether a copy within a page is made: its range passes the check, and the kernel buffers, maps and
-- reads it.
abbrev pub is_copied : Ram → ℕ → ℕ → ℕ → Bool
is_copied k total phy_addr n =
    check_phys_addr_valid_range k total phy_addr n
    && (k.kmalloc && (k.xlate_dev_mem_ptr phy_addr && k.probe_kernel_read phy_addr n))

-- The same for a write, which is neither buffered nor probed.
abbrev pub is_stored : Ram → ℕ → ℕ → ℕ → Bool
is_stored k total phy_addr n =
    check_phys_addr_valid_range k total phy_addr n && k.xlate_dev_mem_ptr phy_addr

-- What a copy puts to the start of the buffer, or leaves there.
abbrev pub got : Ram → ℕ → (ℕ → ℕ) → ℕ → ℕ → List ℕ → List ℕ
got k total ram phy_addr n buf =
    if is_copied k total phy_addr n then bytes_at ram phy_addr n else take n buf

-- Physical memory after a copy of the data's start.
abbrev pub put : Ram → ℕ → (ℕ → ℕ) → ℕ → ℕ → List ℕ → ℕ → ℕ
put k total ram phy_addr n buf =
    if is_stored k total phy_addr n then put_bytes ram phy_addr (take n buf) else ram

whole_piece : (phy_addr n : ℕ) → phy_addr % 4096 + n ≤ 4096 → size_inside_page phy_addr n ≡ n
unfolding size_inside_page
whole_piece phy_addr n h = omega arith

read_ram_loop_done :
    (k : Ram) (ram : ℕ → ℕ) (fuel a m : ℕ) (buf : List ℕ)
    → m ≡ 0
    → read_ram_loop k ram fuel a m buf ≡ (0, buf)
unfolding read_ram_loop
read_ram_loop_done k ram zero a m buf e = refl
read_ram_loop_done k ram (suc fuel) a m buf e = rw (e, read_ram_loop) refl

write_ram_loop_done :
    (k : Ram) (fuel a m : ℕ) (buf : List ℕ) (ram : ℕ → ℕ)
    → m ≡ 0
    → write_ram_loop k fuel a m buf ram ≡ (0, ram)
unfolding write_ram_loop
write_ram_loop_done k zero a m buf ram e = refl
write_ram_loop_done k (suc fuel) a m buf ram e = rw (e, write_ram_loop) refl

module _ (k : Ram) (fuel phy_addr m : ℕ) (buf : List ℕ) (some_byte : (m == 0) ≡ false)
    (whole : size_inside_page phy_addr m ≡ m) (mapped : k.xlate_dev_mem_ptr phy_addr ≡ true)
    (room : ltb (length buf) m ≡ false) where
  read_round :
      (ram : ℕ → ℕ)
      → k.probe_kernel_read phy_addr m ≡ true
      → read_ram_loop k ram (suc fuel) phy_addr m buf ≡ (m, bytes_at ram phy_addr m ++ drop m buf)
  unfolding read_ram_loop
  read_round ram probed =
      let rest =
        read_ram_loop_done k ram fuel ((phy_addr + m) % 2 ^ 64) (m - m) (drop m buf)
          (omega arith) in
      rw (whole, rest, some_byte, mapped, probed, room, read_ram_loop)
        (ap (λ (t : ℕ). (t, bytes_at ram phy_addr m ++ drop m buf)) (omega arith))

  write_round :
      (ram : ℕ → ℕ)
      → write_ram_loop k (suc fuel) phy_addr m buf ram ≡ (m, put_bytes ram phy_addr (take m buf))
  unfolding write_ram_loop
  write_round ram =
      let ram' = put_bytes ram phy_addr (take m buf) in
      let rest =
        write_ram_loop_done k fuel ((phy_addr + m) % 2 ^ 64) (m - m) (drop m buf) ram'
          (omega arith) in
      rw (whole, rest, some_byte, mapped, room, write_ram_loop)
        (ap (λ (t : ℕ). (t, ram')) (omega arith))

module _ (k : Ram) (fuel phy_addr m : ℕ) (buf : List ℕ) (ram : ℕ → ℕ) (some_byte : (m == 0) ≡ false)
    (whole : size_inside_page phy_addr m ≡ m) where
  read_unmapped :
      k.xlate_dev_mem_ptr phy_addr ≡ false
      → read_ram_loop k ram (suc fuel) phy_addr m buf ≡ (0, buf)
  unfolding read_ram_loop
  read_unmapped n = rw (whole, some_byte, n, read_ram_loop) refl

  read_unprobed :
      k.xlate_dev_mem_ptr phy_addr ≡ true
      → k.probe_kernel_read phy_addr m ≡ false
      → read_ram_loop k ram (suc fuel) phy_addr m buf ≡ (0, buf)
  unfolding read_ram_loop
  read_unprobed y n = rw (whole, some_byte, y, n, read_ram_loop) refl

  write_unmapped :
      k.xlate_dev_mem_ptr phy_addr ≡ false
      → write_ram_loop k (suc fuel) phy_addr m buf ram ≡ (0, ram)
  unfolding write_ram_loop
  write_unmapped n = rw (whole, some_byte, n, write_ram_loop) refl

module _ (k : Ram) (total : ℕ) (phy_addr n : ℕ) (buf : List ℕ)
    (inside : phy_addr % 4096 + suc n ≤ 4096) (room : suc n ≤ length buf) (ram : ℕ → ℕ) where
  kept : buf ≡ take (suc n) buf ++ drop (suc n) buf
  kept = sym (take-append-drop (suc n) buf)

  -- A piece within a page is one round, and is copied or is not.
  pub read_ram_piece :
      (read_ram_physical_addr k total ram phy_addr (suc n) buf).1
      ≡ got k total ram phy_addr (suc n) buf ++ drop (suc n) buf
  unfolding read_ram_physical_addr
  read_ram_piece =
      let one = whole_piece phy_addr (suc n) inside in
      elim (Bool-cases (check_phys_addr_valid_range k total phy_addr (suc n))) [
        | inr x ↦ rw x kept
        | inl valid ↦ elim (Bool-cases k.kmalloc) [
          | inr x ↦ simp (valid, x) kept
          | inl buffered ↦ elim (Bool-cases (k.xlate_dev_mem_ptr phy_addr)) [
            | inr x ↦
                simp
                  (
                    valid,
                    buffered,
                    x,
                    read_unmapped k n phy_addr (suc n) buf ram (ground arith) one x,
                  )
                  kept
            | inl mapped ↦ elim (Bool-cases (k.probe_kernel_read phy_addr (suc n))) [
              | inr x ↦
                  simp
                    (
                      valid,
                      buffered,
                      mapped,
                      x,
                      read_unprobed k n phy_addr (suc n) buf ram (ground arith) one mapped x,
                    )
                    kept
              | inl probed ↦
                  simp (valid, buffered, mapped, probed)
                    (ap (λ (r : ℕ × List ℕ). r.1)
                      (read_round k n phy_addr (suc n) buf (ground arith) one mapped
                        (ltb-false (length buf) (suc n) room) ram probed))
            ]
          ]
        ]
      ]

  pub write_ram_piece :
      (write_ram_physical_addr k total phy_addr (suc n) buf ram).1
      ≡ put k total ram phy_addr (suc n) buf
  unfolding write_ram_physical_addr
  write_ram_piece =
      let one = whole_piece phy_addr (suc n) inside in
      elim (Bool-cases (check_phys_addr_valid_range k total phy_addr (suc n))) [
        | inr x ↦ rw x refl
        | inl valid ↦ elim (Bool-cases (k.xlate_dev_mem_ptr phy_addr)) [
          | inr x ↦
              simp (valid, x, write_unmapped k n phy_addr (suc n) buf ram (ground arith) one x) refl
          | inl mapped ↦
              simp (valid, mapped)
                (ap (λ (r : ℕ × (ℕ → ℕ)). r.1)
                  (write_round k n phy_addr (suc n) buf (ground arith) one mapped
                    (ltb-false (length buf) (suc n) room) ram))
        ]
      ]

module _ (k : Ram) (total : ℕ) (phy_addr n : ℕ) (buf : List ℕ) (some_byte : 0 < n)
    (inside : phy_addr % 4096 + n ≤ 4096) (room : n ≤ length buf) (ram : ℕ → ℕ) where
  one_more : suc (n - 1) ≡ n
  one_more = omega arith

  pub read_ram_within :
      (read_ram_physical_addr k total ram phy_addr n buf).1
      ≡ got k total ram phy_addr n buf ++ drop n buf
  read_ram_within =
      subst
        (λ (m : ℕ).
          (read_ram_physical_addr k total ram phy_addr m buf).1
          ≡ got k total ram phy_addr m buf ++ drop m buf)
        one_more (read_ram_piece k total phy_addr (n - 1) buf (omega arith) (omega arith) ram)

  pub write_ram_within :
      (write_ram_physical_addr k total phy_addr n buf ram).1 ≡ put k total ram phy_addr n buf
  write_ram_within =
      subst
        (λ (m : ℕ).
          (write_ram_physical_addr k total phy_addr m buf ram).1 ≡ put k total ram phy_addr m buf)
        one_more (write_ram_piece k total phy_addr (n - 1) buf (omega arith) (omega arith) ram)

  pub length-got : length (got k total ram phy_addr n buf) ≡ n
  length-got = elim (Bool-cases (is_copied k total phy_addr n)) [
    | inl y ↦ rw y (length-bytes_at ram phy_addr n)
    | inr x ↦ rw x (omega (arith, length-take n buf))
  ]
