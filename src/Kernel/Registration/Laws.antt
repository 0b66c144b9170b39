-- ===== src/Kernel/Registration/Laws.antt =====
-- What rwmem_dev_init and rwmem_dev_exit of rwMem/sys.c leave registered.
use rw_mem.Common.{◌≡◌, refl, ◌⊎◌, inl, inr, true, Bool-cases, none, some, Option-cases}
use rw_mem.Common.Result.{Errno, ok, err, efault, enomem}
use rw_mem.Kernel.Registration.{
  Registered, unregistered, Granted, add_cdev, rwmem_dev_init, rwmem_dev_exit,
}

-- Loading the module ends in one of five ways: it has no memory and holds nothing; it has no region of
-- device numbers and leaks its memory; it has no memory for the `cdev` and uses that nevertheless; the
-- `cdev` cannot be added and it leaks both pieces of memory; or it is loaded, and unloading it
-- gives all back.
pub rwmem_dev_init_lem :
    (granted : Granted)
    → (rwmem_dev_init granted unregistered ≡ some (err enomem, unregistered))
      ⊎ ((e : Errno) × (rwmem_dev_init granted unregistered
            ≡ some (err e, record unregistered { devp = true })))
      ⊎ (rwmem_dev_init granted unregistered ≡ none)
      ⊎ (rwmem_dev_init granted unregistered
          ≡ some (err efault, record unregistered { devp = true; pcdev = true }))
      ⊎ ((m : Registered) × (rwmem_dev_init granted unregistered ≡ some (ok true, m))
          × (rwmem_dev_exit m ≡ some unregistered))
unfolding rwmem_dev_init rwmem_dev_exit
rwmem_dev_init_lem granted = elim (Bool-cases granted.kmalloc_devp) [
  | inr n ↦ inl (rw (n, rwmem_dev_init) refl)
  | inl y ↦ elim (Option-cases granted.alloc_chrdev_region) [
    | inr (e, n) ↦ inr (inl (e, rw (y, n, rwmem_dev_init) refl))
    | inl region ↦ elim (Bool-cases granted.kmalloc_pcdev) [
      | inr n ↦ inr (inr (inl (rw (y, region, n, rwmem_dev_init) refl)))
      | inl pcdev ↦ elim (Bool-cases granted.cdev_add) [
        | inr n ↦ inr (inr (inr (inl (rw (y, region, pcdev, n, rwmem_dev_init) refl))))
        | inl added ↦ inr (
            inr (
              inr (
                inr (
                  (add_cdev true
                      (record unregistered { devp = true; region = true; pcdev = true })).1,
                  rw (y, region, pcdev, added, rwmem_dev_init) refl,
                  refl,
                ))))
      ]
    ]
  ]
]
