-- ===== src/Block/Write.antt =====
-- block_write of kernel/src/block.c over a driver that works, at any alignment.
use stewieos.Prelude.{
  ℕ, arith, ◌+◌, ◌≡◌, List, ◌≤◌, length, take, length-append, ◌<◌, length-take, ◌++◌, get_or, ◌-◌,
  drop, if◌then◌else◌, length-drop, leb, ◌&&◌, ltb, get_or-append, get_or-take, get_or-drop, ◌*◌,
  ◌^◌, ◌⊎◌, Bool-cases, refl, ◌%◌, ◌==◌, inl, inr, ◌/◌, ◌∙◌, some, drop-drop, take_all,
}
use mathlib.Core.Path.{subst₂, ap, subst, subst₃, sym}
use stewieos.Block.{
  DevId, Code, as_code-done, done, Device, WritePhase, write_head, write_body, write_tail,
  write_with, device_write, splice, write_part,
}
use stewieos.Block.Disk.{Bytes, slice, Wrote, IsDisk, length-slice, get_or-slice, Wrote-extend}

module _ (c : Bytes) (a o n : ℕ) (buf : List ℕ) (h : o + n ≤ 512) (l : n ≤ length buf) where
  length-splice : length (splice (slice c a 512) o n buf) ≡ 512
  length-splice = omega (
    arith,
    length-append (take o (slice c a 512)) (take n buf ++ drop (o + n) (slice c a 512)),
    length-append (take n buf) (drop (o + n) (slice c a 512)),
    length-take o (slice c a 512),
    length-take n buf,
    length-drop (o + n) (slice c a 512),
    length-slice c a 512,
  )

  get_or-splice :
      (k : ℕ)
      → k < 512
      → get_or (splice (slice c a 512) o n buf) k 0
        ≡ (if leb o k && ltb k (o + n) then get_or (take n buf) (k - o) 0 else c (a + k))
  get_or-splice k less = ground (
    arith,
    get_or-append (take o (slice c a 512)) (take n buf ++ drop (o + n) (slice c a 512)) k 0,
    get_or-append (take n buf) (drop (o + n) (slice c a 512)) (k - o) 0,
    length-take o (slice c a 512),
    length-take n buf,
    length-slice c a 512,
    get_or-take o (slice c a 512) k 0,
    get_or-drop (o + n) (slice c a 512) (k - o - n) 0,
    get_or-slice c a 512 k,
  )

  -- A sector read, with `n` bytes replaced from offset `o` on, and written back.
  splice-Wrote :
      (c' : Bytes) → Wrote c c' a (splice (slice c a 512) o n buf) → Wrote c c' (a + o) (take n buf)
  splice-Wrote c' w x = ground (arith, w x, length-splice, length-take n buf, get_or-splice (x - a))

module _ {D : Type 0} (rd : D → DevId → ℕ → ℕ → ℕ × List ℕ)
    (wr : D → DevId → ℕ → ℕ → List ℕ → ℕ × D) (devid : DevId) (disk : IsDisk rd wr devid) (s : D)
    (off : ℕ) (data' : List ℕ) (fits : off + length data' ≤ disk.sectors * 512)
    (small : disk.sectors ≤ 2 ^ 23) (some_data : 0 < length data')
    (positive : length data' < 2 ^ 31) where
  -- Between two phases `rest` bytes are still to be written, from the start of sector `lba` on.
  Progress : WritePhase D → Type 0
  Progress (WritePhase.stop c d) = ⊥
  Progress (WritePhase.go lba rest buffer d) =
      (n : ℕ) × (n + rest ≡ length data')
      × (rest ≡ 0 ⊎ (lba * 512 ≡ off + n))
      × (buffer ≡ drop n data')
      × Wrote (disk.byte s) (disk.byte d.state) off (take n data')

  sector :
      (t : D) (lba : ℕ)
      → lba + 1 ≤ disk.sectors
      → rd t devid lba 1 ≡ (0, slice (disk.byte t) (lba * 512) 512)
  sector t lba h = disk.read_ok t lba 1 h

  -- One sector read, changed and written: it succeeds, and these are the bytes that differ.
  write_part_lem :
      (d : Device D) (lba o n : ℕ) (buf : List ℕ)
      → lba + 1 ≤ disk.sectors
      → o + n ≤ 512
      → n ≤ length buf
      → let (c, d') = write_part rd wr devid 512 lba o n buf d in
        (c ≡ done 0) × Wrote (disk.byte d.state) (disk.byte d'.state) (lba * 512 + o) (take n buf)
  unfolding write_part
  write_part_lem d lba o n buf h k l =
      let block' = splice (slice (disk.byte d.state) (lba * 512) 512) o n buf in
      let (e, w) =
        disk.write_ok d.state lba 1 block' h
          (length-splice (disk.byte d.state) (lba * 512) o n buf k l) in
      rw (sector d.state lba h)
        (rw e (refl, splice-Wrote (disk.byte d.state) (lba * 512) o n buf k l _ w))

  write_head-Progress :
      (d : Device D)
      → d.state ≡ s
      → Progress (write_head rd wr devid 512 off (length data') data' d)
  unfolding write_head Progress
  write_head-Progress d e = elim (Bool-cases (off % 512 == 0)) [
    | inl z ↦ rw z (0, omega arith, inr (ground arith), refl, λ x. rw e (ground arith))
    | inr z ↦
        let n : ℕ =
          if ltb (512 - off % 512) (length data') then 512 - off % 512 else length data' in
        let part =
          write_part_lem d (off / 512) (off % 512) n data' (ground arith) (ground arith)
            (ground arith) in
        rw (z, part.0)
          (
            n,
            ground arith,
            ground arith,
            refl,
            subst₂
                (λ t a.
                  Wrote (disk.byte t)
                    (disk.byte
                      (write_part rd wr devid 512 (off / 512) (off % 512) n data' d).1.state)
                    a (take n data'))
                e (omega arith) part.1,
          )
  ]

  write_body-Progress : (p : WritePhase D) → Progress p → Progress (write_body rd wr devid 512 p)
  unfolding write_body Progress
  write_body-Progress (WritePhase.stop c d) h = absurd h
  write_body-Progress (WritePhase.go lba rest buffer d) (n, sum, at, left, w) =
      elim (Bool-cases (leb 512 rest)) [
        | inl whole ↦
            let k : ℕ = rest / 512 * 512 in
            let got =
              disk.write_ok d.state lba (rest / 512) (take k buffer) (ground arith)
                (ground (arith, length-take k buffer, ap length left, length-drop n data')) in
            rw (whole, got.0)
              (
                n + k,
                omega arith,
                ground arith,
                ap (drop k) left ∙ drop-drop n k data',
                Wrote-extend (disk.byte s) (disk.byte d.state) _ off (lba * 512) n k data' w
                    (subst
                      (λ b.
                        Wrote (disk.byte d.state)
                          (disk.byte (wr d.state devid lba (rest / 512) (take k buffer)).1)
                          (lba * 512) (take k b))
                      left got.1)
                    (ground arith) (omega arith),
              )
        | inr part ↦ rw part (n, sum, at, left, w)
      ]

  -- After the whole blocks less than a block is left.
  Small : WritePhase D → Type 0
  Small (WritePhase.stop c d) = Unit
  Small (WritePhase.go lba rest buffer d) = rest < 512

  write_body-Small : (p : WritePhase D) → Progress p → Small (write_body rd wr devid 512 p)
  unfolding write_body Progress Small
  write_body-Small (WritePhase.stop c d) h = tt
  write_body-Small (WritePhase.go lba rest buffer d) (n, sum, at, left, w) =
      elim (Bool-cases (leb 512 rest)) [
        | inl whole ↦
            let k : ℕ = rest / 512 * 512 in
            let got =
              disk.write_ok d.state lba (rest / 512) (take k buffer) (ground arith)
                (ground (arith, length-take k buffer, ap length left, length-drop n data')) in
            rw (whole, got.0) (omega arith)
        | inr part ↦ rw part (ground arith)
      ]

  write_tail-Wrote :
      (p : WritePhase D)
      → Progress p
      → Small p
      → let (c, d) = write_tail rd wr devid 512 (length data') p in
        (c ≡ done (length data')) × Wrote (disk.byte s) (disk.byte d.state) off data'
  unfolding write_tail Progress Small
  write_tail-Wrote (WritePhase.stop c d) h l = absurd h
  write_tail-Wrote (WritePhase.go lba rest buffer d) (n, sum, at, left, w) l =
      elim (Bool-cases (rest == 0)) [
        | inl z ↦ rw z (
          as_code-done (length data') positive,
          subst (λ b. Wrote (disk.byte s) (disk.byte d.state) off b)
              (take_all data' n (ground arith)) w,
        )
        | inr z ↦
            let part =
              write_part_lem d lba 0 rest buffer (ground arith) (omega arith)
                (ground (arith, ap length left, length-drop n data')) in
            rw (z, part.0)
              (
                as_code-done (length data') positive,
                subst
                    (λ b.
                      Wrote (disk.byte s)
                        (disk.byte (write_part rd wr devid 512 lba 0 rest buffer d).1.state) off b)
                    (take_all data' (n + rest) (omega arith))
                    (Wrote-extend (disk.byte s) (disk.byte d.state) _ off (lba * 512 + 0) n rest
                      data' w
                      (subst
                        (λ b.
                          Wrote (disk.byte d.state)
                            (disk.byte (write_part rd wr devid 512 lba 0 rest buffer d).1.state)
                            (lba * 512 + 0) (take rest b))
                        left part.1)
                      (ground arith) (omega arith)),
              )
      ]

module _ {D : Type 0} (rd : D → DevId → ℕ → ℕ → ℕ × List ℕ)
    (wr : D → DevId → ℕ → ℕ → List ℕ → ℕ × D) (devid : DevId) (disk : IsDisk rd wr devid) where
  -- What a write returns when it has stored `data'` at `off`.
  abbrev pub WriteDone : D → (off : ℕ) → List ℕ → Code × Device D → Type 0
  WriteDone s off data' (c, d) =
      (c ≡ done (length data')) × Wrote (disk.byte s) (disk.byte d.state) off data'

  write_with-WriteDone :
      (d : Device D) (off : ℕ) (data' : List ℕ)
      → off + length data' ≤ disk.sectors * 512
      → disk.sectors ≤ 2 ^ 23
      → length data' < 2 ^ 31
      → WriteDone d.state off data'
          (write_with (some rd) (some wr) 512 devid off (length data') data' d)
  unfolding write_with
  write_with-WriteDone d off data' fits small positive = elim (Bool-cases (length data' == 0)) [
    | inl z ↦ rw z (ap done (ground arith), λ x. ground arith)
    | inr z ↦
        let some_data : 0 < length data' = ground arith in
        let p =
          write_head-Progress rd wr devid disk d.state off data' fits small some_data positive d
            refl in
        rw z (
          write_tail-Wrote rd wr devid disk d.state off data' fits small some_data positive _
            (write_body-Progress rd wr devid disk d.state off data' fits small some_data positive _
              p)
            (write_body-Small rd wr devid disk d.state off data' fits small some_data positive _ p))
  ]

  -- On a device of 512-byte blocks whose driver is a disk of at most 2 ^ 23 sectors, block_write of
  -- a buffer of less than 2 ^ 31 bytes to any range within the disk, aligned or not, returns its length, stores its bytes
  -- in that range and changes no other byte of the disk.
  pub device_write-Wrote :
      (d : Device D) (off : ℕ) (data' : List ℕ)
      → d.ops.read ≡ some rd
      → d.ops.write ≡ some wr
      → d.blksz ≡ 512
      → off + length data' ≤ disk.sectors * 512
      → disk.sectors ≤ 2 ^ 23
      → length data' < 2 ^ 31
      → WriteDone d.state off data' (device_write devid off (length data') data' d)
  unfolding device_write
  device_write-Wrote d off data' r w b fits small positive =
      subst₃
        (λ o p bs. WriteDone d.state off data' (write_with o p bs devid off (length data') data' d))
        (sym r) (sym w) (sym b) (write_with-WriteDone d off data' fits small positive)
