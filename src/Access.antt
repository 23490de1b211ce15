-- ===== src/Access.antt =====
-- Permissions of a path: path_access of kernel/src/fs.c. A flag word is the record of the bits that the
-- code tests.
pub mod Verdict
mod Tests
use stewieos.Prelude.{
  ℕ, Bool, true, false, not, ◌&&◌, ◌||◌, Option, none, some, ◌==◌, if◌then◌else◌, Errno, Result, ok,
  err,
}

-- The argument `mode`: X_OK, W_OK, R_OK, and whether any other bit is set. F_OK is no bit at all.
pub record Want : Type 0 where
  pub x_ok : Bool
  pub w_ok : Bool
  pub r_ok : Bool
  pub other : Bool

-- Three permission bits of `i_mode`.
pub record Bits : Type 0 where
  pub read : Bool
  pub write : Bool
  pub exec : Bool

-- The fields of struct inode that permissions depend on, and the two mount flags.
pub record Owned : Type 0 where
  pub i_uid : ℕ
  pub i_gid : ℕ
  pub usr : Bits
  pub grp : Bits
  pub oth : Bits

pub record Mount : Type 0 where
  pub rdonly : Bool
  pub noexec : Bool

-- A path: whether its entry is `vfs_root`, its mount, and its inode.
pub record Place : Type 0 where
  pub at_root : Bool
  pub p_mount : Option Mount
  pub inode : Owned

pub record Who : Type 0 where
  pub t_uid : ℕ
  pub t_gid : ℕ

abbrev pub rdonly : Option Mount → Bool
rdonly none = false
rdonly (some m) = m.rdonly

abbrev pub noexec : Option Mount → Bool
noexec none = false
noexec (some m) = m.noexec

abbrev pub mounted : Option Mount → Bool
mounted none = false
mounted (some m) = true

-- The test of one bit by the class of the caller.
pub lacks : Who → Owned → (Bits → Bool) → Bool
lacks who i bit =
    if who.t_uid == i.i_uid
    then not (bit i.usr)
    else if who.t_gid == i.i_gid
    then not (bit i.grp)
    else not (bit i.oth)

pub root_access : Place → Want → Result (Unit {0})
root_access p want =
    if mounted p.p_mount && rdonly p.p_mount && want.w_ok
    then err Errno.erofs
    else if want.x_ok && not (p.inode.usr.exec || p.inode.grp.exec || p.inode.oth.exec)
    then err Errno.eacces
    else ok tt

pub user_access : Who → Place → Want → Result (Unit {0})
unfolding lacks
user_access who p want =
    if want.w_ok && (mounted p.p_mount && rdonly p.p_mount)
    then err Errno.eacces
    else if want.w_ok && lacks who p.inode (λ b. b.write)
    then err Errno.eacces
    else if want.r_ok && lacks who p.inode (λ b. b.read)
    then err Errno.eacces
    else if want.x_ok && (mounted p.p_mount && noexec p.p_mount)
    then err Errno.eacces
    else if want.x_ok && lacks who p.inode (λ b. b.exec)
    then err Errno.eacces
    else ok tt

pub path_access : Who → Place → Want → Result (Unit {0})
unfolding root_access user_access
path_access who p want =
    if want.other
    then err Errno.einval
    else if not (want.x_ok || want.w_ok || want.r_ok)
    then ok tt
    else if p.at_root && not (mounted p.p_mount)
    then ok tt
    else if who.t_uid == 0
    then root_access p want
    else user_access who p want
