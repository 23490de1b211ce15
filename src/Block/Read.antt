-- ===== src/Block/Read.antt =====
-- block_read of kernel/src/block.c over a driver that works, at any alignment.
use stewieos.Prelude.{
  ℕ, arith, List, ◌+◌, ◌≤◌, ◌*◌, ◌^◌, ◌≡◌, ◌-◌, Bool-cases, ◌%◌, ◌==◌, inl, inr, ◌/◌, take, ltb,
  leb, drop, ◌∙◌, refl, some, ◌<◌,
}
use mathlib.Core.Path.{subst₂, sym}
use stewieos.Block.{
  DevId, Code, as_code-done, done, Device, ReadPhase, read_head, read_body, read_tail, device_read,
  read_with,
}
use stewieos.Block.Disk.{slice, IsDisk, slice_eq, take-slice, drop-slice, append_slice}

module _ {D : Type 0} (rd : D → DevId → ℕ → ℕ → ℕ × List ℕ)
    (wr : D → DevId → ℕ → ℕ → List ℕ → ℕ × D) (devid : DevId) (disk : IsDisk rd wr devid) (s : D)
    (off count : ℕ) (fits : off + count ≤ disk.sectors * 512) (small : disk.sectors ≤ 2 ^ 23)
    (positive : count < 2 ^ 31) where
  -- Between two phases `rest` bytes are still to be read, from the start of sector `lba` on.
  Progress : ReadPhase D → Type 0
  Progress (ReadPhase.stop c buffer d) =
      (c ≡ done count) × (buffer ≡ slice (disk.byte s) off count) × (d.state ≡ s)
  Progress (ReadPhase.go lba rest buffer d) =
      (rest ≤ count)
      × (lba * 512 ≡ off + (count - rest))
      × (buffer ≡ slice (disk.byte s) off (count - rest))
      × (d.state ≡ s)

  sector :
      (lba : ℕ)
      → lba + 1 ≤ disk.sectors
      → rd s devid lba 1 ≡ (0, slice (disk.byte s) (lba * 512) 512)
  sector lba h = disk.read_ok s lba 1 h

  -- The part of a sector that a transfer from `off` wants.
  window :
      (n : ℕ)
      → n ≤ 512 - off % 512
      → take n (drop (off % 512) (slice (disk.byte s) (off / 512 * 512) 512))
        ≡ slice (disk.byte s) off n
  window n h =
      rw (drop-slice (disk.byte s) (off % 512) (off / 512 * 512) 512) (
        take-slice (disk.byte s) n _ (512 - off % 512) h
        ∙ slice_eq (disk.byte s) (omega arith) refl)

  read_head-Progress : (d : Device D) → d.state ≡ s → Progress (read_head rd devid 512 off count d)
  unfolding read_head Progress slice
  read_head-Progress d e = elim (Bool-cases (off % 512 == 0)) [
    | inl z ↦
        rw z (
          omega arith,
          ground arith,
          slice_eq (disk.byte s) {a = off} {n = 0} refl (omega arith),
          e,
        )
    | inr z ↦ rw z (
        rw (e, sector (off / 512) (ground arith))
          (elim (Bool-cases (ltb (512 - off % 512) count)) [
            | inl more ↦ rw more (
              omega arith,
              ground arith,
              window (512 - off % 512) (omega arith)
                  ∙ slice_eq (disk.byte s) {a = off} refl (ground arith),
              refl,
            )
            | inr last ↦ rw last (as_code-done count positive, window count (ground arith), refl)
          ]))
  ]

  read_body-Progress : (p : ReadPhase D) → Progress p → Progress (read_body rd devid 512 p)
  unfolding read_body Progress
  read_body-Progress (ReadPhase.stop c buffer d) h = h
  read_body-Progress (ReadPhase.go lba rest buffer d) (le, at, got, e) =
      elim (Bool-cases (leb 512 rest)) [
        | inl whole ↦ rw whole (
            rw (e, disk.read_ok s lba (rest / 512) (omega arith))
              (
                omega arith,
                omega arith,
                append_slice (disk.byte s) off (count - rest) (rest / 512 * 512) _ _ got at
                    (ground arith),
                refl,
              ))
        | inr part ↦ rw part (le, at, got, e)
      ]

  -- After the whole blocks less than a block is left.
  Small : ReadPhase D → Type 0
  Small (ReadPhase.stop c buffer d) = Unit
  Small (ReadPhase.go lba rest buffer d) = rest < 512

  read_body-Small : (p : ReadPhase D) → Progress p → Small (read_body rd devid 512 p)
  unfolding read_body Progress Small
  read_body-Small (ReadPhase.stop c buffer d) h = tt
  read_body-Small (ReadPhase.go lba rest buffer d) (le, at, got, e) =
      elim (Bool-cases (leb 512 rest)) [
        | inl whole ↦ rw whole (rw (e, disk.read_ok s lba (rest / 512) (omega arith)) (omega arith))
        | inr part ↦ rw part (ground arith)
      ]

  read_tail-Progress :
      (p : ReadPhase D)
      → Progress p
      → Small p
      → let (c, buffer, d) = read_tail rd devid 512 count p in
        (c ≡ done count) × (buffer ≡ slice (disk.byte s) off count) × (d.state ≡ s)
  unfolding read_tail Progress Small
  read_tail-Progress (ReadPhase.stop c buffer d) h l = h
  read_tail-Progress (ReadPhase.go lba rest buffer d) (le, at, got, e) l =
      elim (Bool-cases (rest == 0)) [
        | inl z ↦
            rw z (as_code-done count positive, got ∙ slice_eq (disk.byte s) refl (ground arith), e)
        | inr z ↦ rw z (
            rw (e, sector lba (ground arith))
              (
                as_code-done count positive,
                rw (take-slice (disk.byte s) rest (lba * 512) 512 (omega arith)) (
                    append_slice (disk.byte s) off (count - rest) rest count _ got at
                      (omega arith)),
                refl,
              ))
      ]

  transfer :
      (d : Device D)
      → d.state ≡ s
      → let (c, buffer, d') =
          read_tail rd devid 512 count
            (read_body rd devid 512 (read_head rd devid 512 off count d)) in
        (c ≡ done count) × (buffer ≡ slice (disk.byte s) off count) × (d'.state ≡ s)
  transfer d e =
      let p = read_head-Progress d e in
      read_tail-Progress _ (read_body-Progress _ p) (read_body-Small _ p)

module _ {D : Type 0} (rd : D → DevId → ℕ → ℕ → ℕ × List ℕ)
    (wr : D → DevId → ℕ → ℕ → List ℕ → ℕ × D) (devid : DevId) (disk : IsDisk rd wr devid) where
  -- What a read returns when it finds `buffer` right.
  abbrev pub ReadDone : D → (off count : ℕ) → Code × List ℕ × Device D → Type 0
  ReadDone s off count (c, buffer, d) =
      (c ≡ done count) × (buffer ≡ slice (disk.byte s) off count) × (d.state ≡ s)

  -- On a device of 512-byte blocks whose driver is a disk of at most 2 ^ 23 sectors, block_read of
  -- less than 2 ^ 31 bytes within the disk, aligned or not, returns the count and fills the buffer with
  -- exactly the bytes of that range, and leaves the disk as it is.
  pub device_read-slice :
      (d : Device D) (off count : ℕ)
      → d.ops.read ≡ some rd
      → d.blksz ≡ 512
      → off + count ≤ disk.sectors * 512
      → disk.sectors ≤ 2 ^ 23
      → count < 2 ^ 31
      → ReadDone d.state off count (device_read devid off count d)
  unfolding device_read read_with
  device_read-slice d off count r b fits small positive =
      subst₂ (λ o bs. ReadDone d.state off count (read_with o bs devid off count d)) (sym r) (sym b)
        (transfer rd wr devid disk d.state off count fits small positive d refl)
