-- ===== src/Server/Driver/Memory/Laws.antt =====
-- A request that CEServer/MemoryReaderWriter37.hpp puts into a buffer, as rwMem/sys.c reads it.
use rw_mem.Common.{
  ℕ, ◌%◌, ◌^◌, ◌<◌, ◌≡◌, refl, subst, sym, ap, ◌∙◌, Bool, true, false, some, [], ◌∷◌, ◌++◌, ◌==◌,
  arith, take, drop, load, store, get_or, if◌then◌else◌, take-append_eq, drop-append_eq, load-store,
  length-store,
}
use rw_mem.Kernel.Memory.{PageTables, transfer}
use rw_mem.Kernel.Memory.Answers.{Answers, serve-Answers}
use rw_mem.Server.Driver.Memory.{header}

header-process :
    (process address : ℕ) (force : Bool)
    → process < 2 ^ 64
    → load (take 8 (header process address force)) ≡ process
unfolding header
header-process process address force fits =
    ap load (
      take-append_eq 8 (store 8 process) (store 8 address ++ ((if force then 1 else 0) ∷ []))
        (sym (length-store 8 process)))
    ∙ load-store 8 process (omega (arith, fits))

header-address :
    (process address : ℕ) (force : Bool)
    → address < 2 ^ 64
    → load (take 8 (drop 8 (header process address force))) ≡ address
unfolding header
header-address process address force fits =
    ap (λ bs. load (take 8 bs))
      (drop-append_eq 8 (store 8 process) (store 8 address ++ ((if force then 1 else 0) ∷ []))
        (sym (length-store 8 process)))
    ∙ ap load (
        take-append_eq 8 (store 8 address) ((if force then 1 else 0) ∷ [])
          (sym (length-store 8 address)))
    ∙ load-store 8 address (omega (arith, fits))

header-force :
    (process address : ℕ) (force : Bool) → (get_or (header process address force) 16 0 == 1) ≡ force
unfolding header store
header-force process address true = refl
header-force process address false = refl

-- The driver understands every request that the server makes: the process is the handle's low 32
-- bits, and the memory that is copied is that from the request's address on.
pub transfer-header :
    (k : PageTables) (process address size : ℕ) (force : Bool)
    → process < 2 ^ 64
    → address < 2 ^ 64
    → Answers k
        (process % 2 ^ 32)
        address
        size
        force
        (transfer k (some (header process address force)) size)
unfolding transfer
transfer-header k process address size force small near =
    let head = header process address force in
    let answer = transfer k (some head) size in
    subst (λ p. Answers k (p % 2 ^ 32) address size force answer)
      (header-process process address force small)
      (subst (λ a. Answers k (load (take 8 head) % 2 ^ 32) a size force answer)
        (header-address process address force near)
        (subst
          (λ f. Answers k (load (take 8 head) % 2 ^ 32) (load (take 8 (drop 8 head))) size f answer)
          (header-force process address force)
          (serve-Answers k (load (take 8 head) % 2 ^ 32) (load (take 8 (drop 8 head)))
            (get_or head 16 0 == 1) size)))
