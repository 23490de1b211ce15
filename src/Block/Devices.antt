-- ===== src/Block/Devices.antt =====
-- The table `vfs_dev` of kernel/src/block.c, and the functions that go through it.
use stewieos.Prelude.{
  ℕ, zero, suc, ◌+◌, ◌%◌, ◌^◌, Bool, true, false, not, Option, none, some, List, [], leb, ◌==◌,
  if◌then◌else◌, get_or, set, Errno,
}
use stewieos.Block.Io.{
  DevId, Code, done, fail, driver, Ops, Device, device_read, device_write, succeeded,
}

abbrev pub Table : Type 0 → Type 0
Table D = List (Option (Device D))

-- The code that an operation returned.
abbrev pub code_of : ℕ → Code
code_of c = if c == 0 then done 0 else driver c

-- block_file_read and block_file_write: the file's offset moves by a positive count.
abbrev pub advance : ℕ → Code → ℕ
advance f_off (done n) = (f_off + n) % 2 ^ 32
advance f_off (fail e) = f_off
advance f_off (driver c) = f_off
advance f_off (Code.negative n) = f_off

module _ {D : Type 0} where
  -- `vfs_dev[major]`
  abbrev pub slot : Table D → ℕ → Option (Device D)
  slot t major = get_or t major none

  abbrev pub is_free : Option (Device D) → Bool
  is_free none = true
  is_free (some d) = false

  -- `for(major = 0; major < 256; ++major)`, with `left` rounds left.
  unfoldable pub first_free : Table D → (major left : ℕ) → ℕ
  first_free t major zero = major
  first_free t major (suc left) =
      let next = first_free t (major + 1) left in if is_free (slot t major) then major else next

  unfoldable pub get_block_device : Table D → DevId → Option (Device D)
  get_block_device t devid = elim (slot t devid.major) [
    | none ↦ none
    | some d ↦ if leb d.nminors devid.minor then none else elim d.ops.exist [
      | none ↦ some d
      | some exist ↦ if exist d.state devid then some d else none
    ]
  ]

  -- The device with its driver's new state in the table.
  abbrev pub put_state : Table D → ℕ → Device D → D → Table D
  put_state t major d s = set t major (some (record d { state = s }))

  unfoldable pub block_attach : Table D → DevId → Code × Table D
  unfolding get_block_device
  block_attach t devid = elim (get_block_device t devid) [
    | none ↦ (fail Errno.enodev, t)
    | some d ↦ elim d.ops.attach [
      | none ↦ (done 0, t)
      | some attach ↦ let (c, s) = attach d.state in (code_of c, put_state t devid.major d s)
    ]
  ]

  unfoldable pub block_detach : Table D → DevId → Code × Table D
  unfolding get_block_device
  block_detach t devid = elim (get_block_device t devid) [
    | none ↦ (fail Errno.eperm, t)
    | some d ↦ elim d.ops.detach [
      | none ↦ (done 0, t)
      | some detach ↦ let (c, s) = detach d.state in (code_of c, put_state t devid.major d s)
    ]
  ]

  -- `got` is whether kmalloc of the structure succeeds, `state` what the driver starts from, and
  -- `fresh` what the allocated one-block buffer holds (its allocation is not checked by the code).
  unfoldable pub register_block_device :
      (got : Bool) (state : D) (fresh : List ℕ) (major nminors : ℕ)
      → Ops D
      → Table D
      → Code × Table D
  unfolding first_free block_attach
  register_block_device got state fresh major nminors ops t =
      let major' = if leb 256 major then first_free t 0 256 else major in
      let dev : Device D = record {
        ops = ops;
        blksz = 512;
        nminors = nminors;
        refs = 0;
        block = fresh;
        state = state;
      } in
      let (c, t') = block_attach (set t major' (some dev)) (record { major = major'; minor = 0 }) in
      if leb 256 major'
      then (fail Errno.einval, t)
      else if not (is_free (slot t major'))
      then (fail Errno.ebusy, t)
      else if not got
      then (fail Errno.enomem, t)
      else if succeeded c
      then (done 0, t')
      else (c, set t' major' none)

  unfoldable pub unregister_block_device : ℕ → Table D → Code × Table D
  unfolding block_detach
  unregister_block_device major t = elim (slot t major) [
    | none ↦ (done 0, t)
    | some d ↦
        let (c, t') = block_detach (set t major none) (record { major = major; minor = 0 }) in
        if leb 256 major
        then (done 0, t)
        else if not (d.refs == 0)
        then (fail Errno.ebusy, t)
        else if succeeded c
        then (done 0, t')
        else (c, set t' major (some d))
  ]

  -- The transferring calls on a device number; the buffer stays as it was when no device is found.
  unfoldable pub block_read : DevId → (off count : ℕ) → Table D → Code × List ℕ × Table D
  unfolding device_read get_block_device
  block_read devid off count t = elim (get_block_device t devid) [
    | none ↦ (fail Errno.enodev, [], t)
    | some d ↦
        let (c, buffer, d') = device_read devid off count d in
        (c, buffer, set t devid.major (some d'))
  ]

  unfoldable pub block_write : DevId → (off count : ℕ) → List ℕ → Table D → Code × Table D
  unfolding device_write get_block_device
  block_write devid off count buffer t = elim (get_block_device t devid) [
    | none ↦ (fail Errno.enodev, t)
    | some d ↦
        let (c, d') = device_write devid off count buffer d in (c, set t devid.major (some d'))
  ]

  -- The calls of one operation without a transfer: `missing` is the answer to a missing device,
  -- `default` that to a missing operation.
  unfoldable pub call_op :
      (missing default : Code) → (Ops D → Option (D → ℕ × D)) → DevId → Table D → Code × Table D
  unfolding get_block_device
  call_op missing default pick devid t = elim (get_block_device t devid) [
    | none ↦ (missing, t)
    | some d ↦ elim (pick d.ops) [
      | none ↦ (default, t)
      | some f ↦ let (c, s) = f d.state in (code_of c, put_state t devid.major d s)
    ]
  ]

  unfoldable pub block_ioctl : DevId → (cmd argp : ℕ) → Table D → Code × Table D
  unfolding call_op
  block_ioctl devid cmd argp t =
      call_op (fail Errno.eperm) (fail Errno.eperm)
        (λ ops. elim ops.ioctl [ none ↦ none | some f ↦ some (λ s. f s devid cmd argp) ]) devid t

  unfoldable pub block_open : DevId → Table D → Code × Table D
  unfolding call_op
  block_open devid t =
      call_op (fail Errno.enodev) (done 0)
        (λ ops. elim ops.open_op [ none ↦ none | some f ↦ some (λ s. f s devid) ]) devid t

  unfoldable pub block_close : DevId → Table D → Code × Table D
  unfolding call_op
  block_close devid t =
      call_op (fail Errno.enodev) (done 0)
        (λ ops. elim ops.close_op [ none ↦ none | some f ↦ some (λ s. f s devid) ]) devid t

  unfoldable pub block_file_read : DevId → (f_off count : ℕ) → Table D → Code × List ℕ × ℕ × Table D
  unfolding block_read
  block_file_read devid f_off count t =
      let (c, buffer, t') = block_read devid f_off count t in (c, buffer, advance f_off c, t')

  unfoldable pub block_file_write :
      DevId → (f_off count : ℕ) → List ℕ → Table D → Code × ℕ × Table D
  unfolding block_write
  block_file_write devid f_off count buffer t =
      let (c, t') = block_write devid f_off count buffer t in (c, advance f_off c, t')
