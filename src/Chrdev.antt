-- ===== src/Chrdev.antt =====
-- The table of character devices, kernel/src/chrdev.c. A name is a string up to its terminating zero, and
-- the `file_operations` that a driver hands over are of any type. A major number is not negative.
pub mod Table
mod Tests
use stewieos.Prelude.{
  ℕ, Bool, true, false, not, Option, none, some, List, [], ◌∷◌, leb, if◌then◌else◌, get_or, set,
  take, Errno, Result, ok, err,
}

-- `chrdev_t`. The field `name` has 64 characters, the last one 0.
pub record Chrdev (F : Type 0) : Type 0 where
  pub name : List ℕ
  pub fops : F

module _ {F : Type 0} where
  -- `chrdev[major]`
  abbrev pub entry : List (Option (Chrdev F)) → ℕ → Option (Chrdev F)
  entry t major = get_or t major none

  abbrev pub in_use : Option (Chrdev F) → Bool
  in_use none = false
  in_use (some d) = true

  -- `chrdev[major]->fops`, or NULL
  abbrev pub fops_of : Option (Chrdev F) → Option F
  fops_of none = none
  fops_of (some d) = some d.fops

  -- `got` is whether kmalloc succeeds.
  pub register_chrdev :
      (got : Bool) (major : ℕ) (name : List ℕ)
      → F
      → List (Option (Chrdev F))
      → Result (Unit {0}) × List (Option (Chrdev F))
  register_chrdev got major name fops t =
      if leb 256 major
      then (err Errno.eexist, t)
      else if in_use (entry t major)
      then (err Errno.eexist, t)
      else if not got
      then (err Errno.enomem, t)
      else (ok tt, set t major (some (record { name = take 63 name; fops = fops })))

  pub unregister_chrdev :
      ℕ → List (Option (Chrdev F)) → Result (Unit {0}) × List (Option (Chrdev F))
  unregister_chrdev major t =
      if leb 256 major
      then (err Errno.eexist, t)
      else if not (in_use (entry t major))
      then (ok tt, t)
      else (ok tt, set t major none)

  pub get_chrdev_fops : ℕ → List (Option (Chrdev F)) → Option F
  get_chrdev_fops major t = if leb 256 major then none else fops_of (entry t major)
