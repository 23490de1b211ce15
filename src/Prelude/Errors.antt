-- ===== src/Prelude/Errors.antt =====
-- The error numbers that the kernel returns negated, and what a call returns: a value or an error.
-- `eperm` stands for the bare -1 of some functions (EPERM is 1).
pub data Errno : Type 0 where
  eperm einval ebusy enomem enodev enosys etimedout e2big enoent eexist enxio eio erofs eacces ebadf
        emfile eisdir enotdir enospc enotty echild :
      Errno

pub data Result {ℓ} (A : Type ℓ) : Type ℓ where
  ok : A → Result A
  err : Errno → Result A
