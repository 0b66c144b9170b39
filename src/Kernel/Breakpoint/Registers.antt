-- ===== src/Kernel/Breakpoint/Registers.antt =====
-- The registers that a reader of a breakpoint's file of rwMem/bp.c sets and reads.
use rw_mem.Common.{
  ℕ, zero, suc, ◌+◌, ◌-◌, ◌*◌, ◌≤◌, ◌<◌, ◌≡◌, refl, sym, ap, ◌∙◌, true, some, List, [], ◌∷◌, ◌++◌,
  arith, set, take, drop, store, load, length, take-append_eq, drop-append_ge, append_assoc,
  length-store, leb-false, le→leb, load-store, ◌^◌,
}
use rw_mem.Common.Result.{ok}
use rw_mem.Kernel.Breakpoint.{
  PrivateData, Task, Debugger, set_task, bp_set_reg, ioctl, read, words, fpsimd_state,
}
use rw_mem.Kernel.Breakpoint.Protocol.{ioctl_stopped, assign_self}

words-set :
    (xs ys : List ℕ) (id value : ℕ)
    → id < length xs
    → take 8 (drop (8 * id) (words 8 (set xs id value) ++ ys)) ≡ store 8 value
unfolding words
words-set [] ys id value h = absurd (omega arith)
words-set (x ∷ xs) ys zero value h =
    ap (take 8) (append_assoc (store 8 value) (words 8 xs) ys)
    ∙ take-append_eq 8 (store 8 value) (words 8 xs ++ ys) (sym (length-store 8 value))
words-set (x ∷ xs) ys (suc id) value h =
    ap (λ zs. take 8 (drop (8 * suc id) zs))
      (append_assoc (store 8 x) (words 8 (set xs id value)) ys)
    ∙ ap (take 8) (
        drop-append_ge (8 * suc id) (store 8 x) (words 8 (set xs id value) ++ ys)
          (omega (arith, length-store 8 x))
        ∙ ap (λ (k : ℕ). drop k (words 8 (set xs id value) ++ ys))
            {x = 8 * suc id - length (store 8 x)} {y = 8 * id} (omega (arith, length-store 8 x)))
    ∙ words-set xs ys id value (omega arith)

-- While a file is stopped, a value of 64 bits that IOCTL_BP_SET_REG has put into one of the 34 words of
-- user_regs is what the next `read` into a buffer of at least 800 bytes gives at the word's place.
pub set_reg-read :
    (s : Debugger) (file id value size sizeof_pt_regs : ℕ) (d : PrivateData)
    → s.files file ≡ some d
    → d.stopped_flag ≡ true
    → length (s.tasks d.target_task).regs ≡ 34
    → id < 34
    → value < 2 ^ 64
    → 800 ≤ size
    → (t : Debugger) × (bytes : List ℕ) × (ioctl s file (bp_set_reg (some (id, value)))
        ≡ some (ok 0, t))
      × (read sizeof_pt_regs (true, true) t file size ≡ some (ok (sizeof_pt_regs + 528), bytes))
      × (load (take 8 (drop (8 * id) bytes)) ≡ value)
unfolding read
set_reg-read s file id value size sizeof_pt_regs d here stopped many small fits room =
    let pid = d.target_task in
    let k : Task = record (s.tasks pid) { regs = set (s.tasks pid).regs id value } in
    let t = set_task s pid k in
    let same = assign_self s.tasks pid k in
    (
      t,
      words 8 k.regs ++ fpsimd_state k,
      ioctl_stopped s file d (bp_set_reg (some (id, value))) here stopped
          ∙ ap some (rw (leb-false 34 id small) refl),
      rw (read, here, stopped, le→leb 800 size room, same) refl,
      ap load (words-set (s.tasks pid).regs (fpsimd_state k) id value (omega (arith, many)))
          ∙ load-store 8 value (omega (arith, fits)),
    )
