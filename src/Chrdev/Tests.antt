-- ===== src/Chrdev/Tests.antt =====
-- Small runs of kernel/src/chrdev.c: a table in which number 0 alone is in use.
use stewieos.Prelude.{ℕ, ◌≡◌, refl, List, [], ◌∷◌, true, none, some, err, Errno, Option, replicate}
use stewieos.Chrdev.{Chrdev, register_chrdev}
use stewieos.Chrdev.Table.{Registers, register_chrdev-Registers}

abbrev table : List (Option (Chrdev ℕ))
table = some (record { name = []; fops = 11 }) ∷ replicate 255 none

in_use_is_refused : register_chrdev true 0 [] 12 table ≡ (err Errno.eexist, table)
unfolding register_chrdev
in_use_is_refused = refl

register_chrdev-Registers_example : Registers table true 4 12 (register_chrdev true 4 [] 12 table)
register_chrdev-Registers_example = register_chrdev-Registers table refl true 4 [] 12
