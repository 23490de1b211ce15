-- ===== src/Access/Tests.antt =====
-- Small runs of path_access of kernel/src/fs.c.
use stewieos.Prelude.{true, false, some, ◌≡◌}
use stewieos.Access.{Want, Owned, Place, path_access}
use stewieos.Access.Verdict.{granted, permitted, path_access-permitted}

-- a file of user 5, group 7, with mode 0640, on a mount that is read-only
abbrev owned : Owned
owned = record {
  i_uid = 5;
  i_gid = 7;
  usr = record { read = true; write = true; exec = false };
  grp = record { read = true; write = false; exec = false };
  oth = record { read = false; write = false; exec = false };
}

abbrev place : Place
place = record {
  at_root = false;
  p_mount = some (record { rdonly = true; noexec = false });
  inode = owned;
}

abbrev to_read : Want
to_read = record { x_ok = false; w_ok = false; r_ok = true; other = false }

path_access-permitted_example :
    granted (path_access (record { t_uid = 6; t_gid = 7 }) place to_read)
    ≡ permitted (record { t_uid = 6; t_gid = 7 }) place to_read
path_access-permitted_example =
    path_access-permitted (record { t_uid = 6; t_gid = 7 }) place to_read
