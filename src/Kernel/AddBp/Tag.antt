-- ===== src/Kernel/AddBp/Tag.antt =====
-- The context that `bp_callback` of rwMem/bp.c turns back into the file of the breakpoint.
use rw_mem.Common.{
  ℕ, ◌+◌, ◌-◌, ◌*◌, ◌/◌, ◌%◌, ◌^◌, ◌<◌, ◌≡◌, ap, ◌∙◌, arith, bit_or, bit_and-fields, bit_or-fields,
  bit_or-zero, bit_and-ones,
}
use rw_mem.Kernel.AddBp.{callback_context, callback_file}

module _ (low : ℕ) (h : low < 2 ^ 56) where
  callback_context_of : callback_context (255 * 2 ^ 56 + low) ≡ 203 * 2 ^ 56 + low
  unfolding callback_context
  callback_context_of =
      bit_and-fields 255 203 56 low (2 ^ 56 - 1) h (omega arith)
      ∙ omega (arith, bit_and-ones 56 low h)

  callback_file_of : callback_file (203 * 2 ^ 56 + low) ≡ 255 * 2 ^ 56 + low
  unfolding callback_file
  callback_file_of =
      ap (bit_or (203 * 2 ^ 56 + low)) {x = 255 * 2 ^ 56} {y = 255 * 2 ^ 56 + 0} (omega arith)
      ∙ bit_or-fields 203 255 56 low 0 h (omega arith)
      ∙ omega (arith, bit_or-zero low)

-- `bp_callback` finds the file that IOCTL_ADD_BP has put into the breakpoint's context, if the eight
-- highest bits of the file's address are set.
pub callback_file-callback_context :
    (file : ℕ) → file / 2 ^ 56 ≡ 255 → callback_file (callback_context file) ≡ file
callback_file-callback_context file top =
    let low = file % 2 ^ 56 in
    let fits : low < 2 ^ 56 = omega arith in
    ap (λ (x : ℕ). callback_file (callback_context x)) {x = file} {y = 255 * 2 ^ 56 + low}
      (omega arith)
    ∙ ap callback_file (callback_context_of low fits)
    ∙ callback_file_of low fits
    ∙ omega arith
