-- ===== src/Block/RoundTrip.antt =====
-- block_read after block_write, over a driver of kernel/src/block.c that works.
use stewieos.Prelude.{
  ℕ, arith, refl, ◌+◌, ◌≡◌, List, ◌/◌, ◌%◌, if◌then◌else◌, ltb, ◌-◌, Option, some, length, ◌≤◌, ◌*◌,
  ◌^◌, ap, ◌∙◌, Bool-cases, ◌==◌, inl, inr, ◌<◌,
}
use mathlib.Core.Path.{subst₂, sym}
use stewieos.Block.{
  DevId, done, Device, WritePhase, write_part, write_head, write_body, write_tail, write_with,
  device_write, device_read,
}
use stewieos.Block.Disk.{IsDisk, slice-Wrote}
use stewieos.Block.Read.{device_read-slice}
use stewieos.Block.Write.{device_write-Wrote}

-- A transfer changes only the buffer and the driver's state of a device.
record Same {D : Type 0} (d d' : Device D) : Type 0 where
  ops : d'.ops ≡ d.ops
  blksz : d'.blksz ≡ d.blksz

module _ {D : Type 0} (rd : D → DevId → ℕ → ℕ → ℕ × List ℕ)
    (wr : D → DevId → ℕ → ℕ → List ℕ → ℕ × D) (devid : DevId) (bs : ℕ) (d : Device D) where
  phase_device : WritePhase D → Device D
  phase_device (WritePhase.stop c e) = e
  phase_device (WritePhase.go lba rest buffer e) = e

  write_part-Same :
      (lba o n : ℕ) (buffer : List ℕ) (e : Device D)
      → Same d e
      → Same d (write_part rd wr devid bs lba o n buffer e).1
  unfolding write_part
  write_part-Same lba o n buffer e same = ground arith

  write_head-Same :
      (off count : ℕ) (buffer : List ℕ)
      → Same d (phase_device (write_head rd wr devid bs off count buffer d))
  unfolding write_head phase_device
  write_head-Same off count buffer = ground (
    arith,
    write_part-Same (off / bs) (off % bs)
        (if ltb (bs - off % bs) count then bs - off % bs else count) buffer d,
  )

  write_body-Same :
      (p : WritePhase D)
      → Same d (phase_device p)
      → Same d (phase_device (write_body rd wr devid bs p))
  unfolding write_body phase_device
  write_body-Same (WritePhase.stop c e) same = same
  write_body-Same (WritePhase.go lba rest buffer e) same = ground arith

  write_tail-Same :
      (requested : ℕ) (p : WritePhase D)
      → Same d (phase_device p)
      → Same d (write_tail rd wr devid bs requested p).1
  unfolding write_tail phase_device
  write_tail-Same requested (WritePhase.stop c e) same = same
  write_tail-Same requested (WritePhase.go lba rest buffer e) same =
      ground (arith, write_part-Same lba 0 rest buffer e)

  write_with-Same :
      (o : Option (D → DevId → ℕ → ℕ → ℕ × List ℕ))
      (p : Option (D → DevId → ℕ → ℕ → List ℕ → ℕ × D)) (off count : ℕ) (buffer : List ℕ)
      → o ≡ some rd
      → p ≡ some wr
      → Same d (write_with o p bs devid off count buffer d).1
  unfolding write_with
  write_with-Same o p off count buffer e f =
      subst₂ (λ o p. Same d (write_with o p bs devid off count buffer d).1) (sym e) (sym f)
        (elim (Bool-cases (count == 0)) [
          | inl z ↦ rw z (record { ops = refl; blksz = refl })
          | inr z ↦
              rw z (write_tail-Same count _ (write_body-Same _ (write_head-Same off count buffer)))
        ])

module _ {D : Type 0} (rd : D → DevId → ℕ → ℕ → ℕ × List ℕ)
    (wr : D → DevId → ℕ → ℕ → List ℕ → ℕ × D) (devid : DevId) (disk : IsDisk rd wr devid) where
  -- On a device of 512-byte blocks whose driver is a disk of at most 2 ^ 23 sectors, a block_read of
  -- the range that a block_write stored a buffer of less than 2 ^ 31 bytes in returns that buffer.
  pub device_read-device_write :
      (d : Device D) (off : ℕ) (data' : List ℕ)
      → d.ops.read ≡ some rd
      → d.ops.write ≡ some wr
      → d.blksz ≡ 512
      → off + length data' ≤ disk.sectors * 512
      → disk.sectors ≤ 2 ^ 23
      → length data' < 2 ^ 31
      → let (c, d') = device_write devid off (length data') data' d in
        let (c', buffer, d'') = device_read devid off (length data') d' in
        (c ≡ done (length data')) × (c' ≡ done (length data')) × (buffer ≡ data')
  unfolding device_write
  device_read-device_write d off data' r w b fits small positive =
      let (c, stored) = device_write-Wrote rd wr devid disk d off data' r w b fits small positive in
      let same =
        write_with-Same rd wr devid d.blksz d d.ops.read d.ops.write off (length data') data' r w in
      let got =
        device_read-slice rd wr devid disk (device_write devid off (length data') data' d).1 off
          (length data') (ap (λ o. o.read) same.ops ∙ r) (same.blksz ∙ b) fits small positive in
      (c, got.0, got.1 ∙ slice-Wrote _ _ off data' stored)
