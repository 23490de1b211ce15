-- ===== src/Block/Io.antt =====
-- The data of kernel/include/stewieos/block.h, and the transfers of block_read and block_write over
-- one device, in the phases of the code: the part of a first block, the whole blocks, and the part
-- of a last block. `off_t` and `size_t` have 32 bits. The device lock has no effect on one caller.
use stewieos.Prelude.{
  zero, suc, ℕ, ◌+◌, ◌-◌, ◌*◌, ◌/◌, ◌%◌, ◌^◌, Bool, not, Option, none, some, List, [], ◌++◌, ltb,
  leb, ◌==◌, if◌then◌else◌, take, drop, Errno, false, true, suc, ◌<◌, ◌≡◌, arith,
}

-- A `dev_t` by its two numbers: `makedev` pairs them, `major` and `minor` take it apart.
pub record DevId : Type 0 where
  pub major : ℕ
  pub minor : ℕ

-- What an int or ssize_t stands for: a success (with the count, or 0), a negated error number, a
-- driver's own code other than 0, or a count from 2 ^ 31 on, which is a negative number.
pub data Code : Type 0 where
  done : ℕ → Code
  fail : Errno → Code
  driver : ℕ → Code
  negative : ℕ → Code

-- `(ssize_t)count`, by its absolute value where it is negative
abbrev pub as_code : (count : ℕ) → Code
as_code count =
    if ltb (count % 2 ^ 32) (2 ^ 31)
    then done (count % 2 ^ 32)
    else negative (2 ^ 32 - count % 2 ^ 32)

pub as_code-done : (count : ℕ) → count < 2 ^ 31 → as_code count ≡ done count
as_code-done count h = ground (arith, h)

abbrev pub succeeded : Code → Bool
succeeded (done zero) = true
succeeded (done (suc n)) = false
succeeded (fail e) = false
succeeded (driver c) = false
succeeded (negative n) = false

-- `D` is the state behind a driver. An operation that is a NULL pointer is `none`; one that returns
-- an int gives the code, 0 for success. `read` gives what it stores in the buffer as well.
pub record Ops (D : Type 0) : Type 0 where
  pub read : Option (D → DevId → ℕ → ℕ → ℕ × List ℕ)
  pub write : Option (D → DevId → ℕ → ℕ → List ℕ → ℕ × D)
  pub ioctl : Option (D → DevId → ℕ → ℕ → ℕ × D)
  pub open_op : Option (D → DevId → ℕ × D)
  pub close_op : Option (D → DevId → ℕ × D)
  pub exist : Option (D → DevId → Bool)
  pub attach : Option (D → ℕ × D)
  pub detach : Option (D → ℕ × D)

-- struct block_device; `state` is what the driver keeps, `block` the one-block transfer buffer.
pub record Device (D : Type 0) : Type 0 where
  pub ops : Ops D
  pub blksz : ℕ
  pub nminors : ℕ
  pub refs : ℕ
  pub block : List ℕ
  pub state : D

-- `memcpy(&block[o], bytes, n)` for `n` bytes
abbrev pub splice : List ℕ → ℕ → (n : ℕ) → List ℕ → List ℕ
splice block o n bytes = take o block ++ (take n bytes ++ drop (o + n) block)

-- Either the transfer returns, or it goes on with an lba, a count and what is in the buffer.
pub data ReadPhase (D : Type 0) : Type 0 where
  stop : Code → List ℕ → Device D → ReadPhase D
  go : (lba count : ℕ) → List ℕ → Device D → ReadPhase D

-- A phase of a write holds what is left of the caller's buffer.
pub data WritePhase (D : Type 0) : Type 0 where
  stop : Code → Device D → WritePhase D
  go : (lba count : ℕ) → List ℕ → Device D → WritePhase D

module _ {D : Type 0} where
  module _ (rd : D → DevId → ℕ → ℕ → ℕ × List ℕ) (devid : DevId) (bs : ℕ) where
    unfoldable pub read_head : (off count : ℕ) → Device D → ReadPhase D
    read_head off count d =
        let lba = off / bs in
        let o = off % bs in
        let (error, bytes) = rd d.state devid lba 1 in
        let d' = record d { block = bytes } in
        if o == 0
        then go lba count [] d
        else if not (error == 0)
        then stop (driver error) [] d'
        else if ltb (bs - o) count
        then go ((lba + 1) % 2 ^ 32) (count - (bs - o)) (take (bs - o) (drop o bytes)) d'
        else stop (as_code count) (take count (drop o bytes)) d'

    unfoldable pub read_body : ReadPhase D → ReadPhase D
    read_body (stop c buffer d) = stop c buffer d
    read_body (go lba count buffer d) =
        let n = count / bs in
        let (error, bytes) = rd d.state devid lba n in
        if leb bs count
        then (if not (error == 0)
            then stop (driver error) buffer d
            else go ((lba + n) % 2 ^ 32) (count - n * bs) (buffer ++ bytes) d)
        else go lba count buffer d

    unfoldable pub read_tail : (requested : ℕ) → ReadPhase D → Code × List ℕ × Device D
    read_tail requested (stop c buffer d) = (c, buffer, d)
    read_tail requested (go lba count buffer d) =
        let (error, bytes) = rd d.state devid lba 1 in
        let d' = record d { block = bytes } in
        if count == 0
        then (as_code requested, buffer, d)
        else if not (error == 0)
        then (driver error, buffer, d')
        else (as_code requested, buffer ++ take count bytes, d')

  module _ (rd : D → DevId → ℕ → ℕ → ℕ × List ℕ) (wr : D → DevId → ℕ → ℕ → List ℕ → ℕ × D)
      (devid : DevId) (bs : ℕ) where
    -- A sector is read into `device->block`, `n` bytes from offset `o` on are replaced, and it
    -- is written back.
    unfoldable pub write_part : (lba o n : ℕ) → List ℕ → Device D → Code × Device D
    write_part lba o n buffer d =
        let (error, bytes) = rd d.state devid lba 1 in
        let block' = splice bytes o n buffer in
        let (error', state') = wr d.state devid lba 1 block' in
        if not (error == 0)
        then (driver error, record d { block = bytes })
        else if not (error' == 0)
        then (driver error', record d { block = block'; state = state' })
        else (done 0, record d { block = block'; state = state' })

    unfoldable pub write_head : (off count : ℕ) → List ℕ → Device D → WritePhase D
    unfolding write_part
    write_head off count buffer d =
        let lba = off / bs in
        let o = off % bs in
        let n = if ltb (bs - o) count then bs - o else count in
        let (c, d') = write_part lba o n buffer d in
        if o == 0
        then go lba count buffer d
        else if succeeded c
        then go ((lba + 1) % 2 ^ 32) (count - n) (drop n buffer) d'
        else stop c d'

    unfoldable pub write_body : WritePhase D → WritePhase D
    write_body (stop c d) = stop c d
    write_body (go lba count buffer d) =
        let n = count / bs in
        let (error, state') = wr d.state devid lba n (take (n * bs) buffer) in
        let d' = record d { state = state' } in
        if leb bs count
        then (if not (error == 0)
            then stop (driver error) d'
            else go ((lba + n) % 2 ^ 32) (count - n * bs) (drop (n * bs) buffer) d')
        else go lba count buffer d

    unfoldable pub write_tail : (requested : ℕ) → WritePhase D → Code × Device D
    unfolding write_part
    write_tail requested (stop c d) = (c, d)
    write_tail requested (go lba count buffer d) =
        let (c, d') = write_part lba 0 count buffer d in
        if count == 0
        then (as_code requested, d)
        else if succeeded c
        then (as_code requested, d')
        else (c, d')

  -- block_read and block_write on the device that get_block_device found, with its driver's
  -- operation and its block size.
  unfoldable pub read_with :
      Option (D → DevId → ℕ → ℕ → ℕ × List ℕ)
      → (bs : ℕ) → DevId
      → (off count : ℕ) → Device D
      → Code × List ℕ × Device D
  unfolding read_head read_body read_tail
  read_with none bs devid off count d = (fail Errno.enosys, [], d)
  read_with (some rd) bs devid off count d =
      read_tail rd devid bs count (read_body rd devid bs (read_head rd devid bs off count d))

  unfoldable pub device_read : DevId → (off count : ℕ) → Device D → Code × List ℕ × Device D
  unfolding read_with
  device_read devid off count d = read_with d.ops.read d.blksz devid off count d

  -- The code calls `read` here without a test: the model answers a driver that has `write` and no
  -- `read` as one that has neither.
  unfoldable pub write_with :
      Option (D → DevId → ℕ → ℕ → ℕ × List ℕ)
      → Option (D → DevId → ℕ → ℕ → List ℕ → ℕ × D)
      → (bs : ℕ) → DevId
      → (off count : ℕ) → List ℕ
      → Device D
      → Code × Device D
  unfolding write_head write_body write_tail
  write_with rd none bs devid off count buffer d = (fail Errno.enosys, d)
  write_with none (some wr) bs devid off count buffer d = (fail Errno.enosys, d)
  write_with (some rd) (some wr) bs devid off count buffer d =
      if count == 0
      then (done 0, d)
      else write_tail rd wr devid bs count
          (write_body rd wr devid bs (write_head rd wr devid bs off count buffer d))

  unfoldable pub device_write : DevId → (off count : ℕ) → List ℕ → Device D → Code × Device D
  unfolding write_with
  device_write devid off count buffer d =
      write_with d.ops.read d.ops.write d.blksz devid off count buffer d
