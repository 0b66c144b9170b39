-- ===== src/Kernel/Registration.antt =====
-- rwMem/sys.c: rwmem_dev_init and rwmem_dev_exit, by what they take from the kernel and give back.
--
-- What the kernel answers is an argument. A use of memory that was not allocated is the fault `none`.
-- What `class_create` and `device_create` return is not looked at.
pub mod Laws
use rw_mem.Common.{Bool, true, false, Option, none, some}
use rw_mem.Common.Result.{Errno, Result, ok, err, efault, enomem}

-- What is allocated, registered or created: `g_rwProcMem_devp`, its `pcdev`, the region of device
-- numbers, the `cdev`, the class, the device and the hook of single steps.
pub record Registered : Type 0 where
  pub devp : Bool
  pub pcdev : Bool
  pub region : Bool
  pub cdev : Bool
  pub class_made : Bool
  pub device : Bool
  pub step_hook : Bool

abbrev pub unregistered : Registered
unregistered = record {
  devp = false;
  pcdev = false;
  region = false;
  cdev = false;
  class_made = false;
  device = false;
  step_hook = false;
}

-- The two calls of `kmalloc`, `alloc_chrdev_region` and `cdev_add`.
pub record Granted : Type 0 where
  pub kmalloc_devp : Bool
  pub alloc_chrdev_region : Option Errno
  pub kmalloc_pcdev : Bool
  pub cdev_add : Bool

-- What is done behind `cdev_init`.
abbrev pub add_cdev : Bool → Registered → Result Bool × Registered
add_cdev false m = (err efault, record m { region = false })
add_cdev true m =
    (ok true, record m { cdev = true; class_made = true; device = true; step_hook = true })

-- `rwmem_dev_init`: 0 is `ok`. Behind `_fail` the region is unregistered, whether it is there or not.
unfoldable pub rwmem_dev_init : Granted → Registered → Option (Result Bool × Registered)
rwmem_dev_init granted m = elim granted.kmalloc_devp [
  | false ↦ some (err enomem, record m { region = false })
  | true ↦ elim granted.alloc_chrdev_region [
    | some e ↦ some (err e, record m { devp = true })
    | none ↦ elim granted.kmalloc_pcdev [
      | false ↦ none
      | true ↦
          some (add_cdev granted.cdev_add (record m { devp = true; region = true; pcdev = true }))
    ]
  ]
]

-- `rwmem_dev_exit`; `cdev_del` reads `g_rwProcMem_devp`.
unfoldable pub rwmem_dev_exit : Registered → Option Registered
rwmem_dev_exit m = elim m.devp [
  | false ↦ none
  | true ↦ some (record m {
    device = false;
    class_made = false;
    cdev = false;
    region = false;
    step_hook = false;
    pcdev = false;
    devp = false;
  })
]
