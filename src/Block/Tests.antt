-- ===== src/Block/Tests.antt =====
-- Small runs of kernel/src/block.c over a disk of four sectors in memory.
use stewieos.Prelude.{
  ℕ, List, [], ◌∷◌, ◌≡◌, refl, arith, true, none, some, replicate, length, get_or, ◌+◌, ◌*◌, ◌-◌,
  ◌&&◌, if◌then◌else◌, ltb, leb,
}
use stewieos.Block.{
  DevId, Device, Ops, done, device_read, device_write, Table, register_block_device,
}
use stewieos.Block.Disk.{Bytes, slice, IsDisk}
use stewieos.Block.RoundTrip.{device_read-device_write}
use stewieos.Block.Registry.{Registered, register_block_device-Registered}

-- The state of the driver is the array of its bytes.
abbrev disk_read : Bytes → DevId → ℕ → ℕ → ℕ × List ℕ
disk_read c devid lba n = (0, slice c (lba * 512) (n * 512))

abbrev disk_write : Bytes → DevId → ℕ → ℕ → List ℕ → ℕ × Bytes
disk_write c devid lba n buf = (
  0,
  λ x.
      if leb (lba * 512) x && ltb x (lba * 512 + length buf)
      then get_or buf (x - lba * 512) 0
      else c x,
)

abbrev devid : DevId
devid = record { major = 3; minor = 0 }

abbrev ram_disk : IsDisk disk_read disk_write devid
ram_disk = record {
  sectors = 4;
  byte = λ c. c;
  read_ok = λ d lba n h. refl;
  write_ok = λ d lba n buf h l. (refl, λ x. refl);
}

abbrev disk_ops : Ops Bytes
disk_ops = record {
  read = some disk_read;
  write = some disk_write;
  ioctl = none;
  open_op = none;
  close_op = none;
  exist = none;
  attach = none;
  detach = none;
}

abbrev device : Device Bytes
device = record { ops = disk_ops; blksz = 512; nminors = 1; refs = 0; block = []; state = λ x. x }

abbrev table : Table Bytes
table = some device ∷ replicate 255 none

device_read-device_write_example :
    let (c, d') = device_write devid 510 3 (1 ∷ 2 ∷ 3 ∷ []) device in
    let (c', buffer, d'') = device_read devid 510 3 d' in
    (c ≡ done 3) × (c' ≡ done 3) × (buffer ≡ 1 ∷ 2 ∷ 3 ∷ [])
device_read-device_write_example =
    device_read-device_write disk_read disk_write devid ram_disk device 510 (1 ∷ 2 ∷ 3 ∷ []) refl
      refl refl (omega arith) (omega arith) (omega arith)

register_block_device-Registered_example :
    Registered table 3 1 disk_ops
      (register_block_device true (λ x. x) (replicate 512 0) 3 1 disk_ops table)
register_block_device-Registered_example =
    register_block_device-Registered true (λ x. x) (replicate 512 0) 3 1 disk_ops table refl
