-- ===== src/Block/Registry.antt =====
-- register_block_device, unregister_block_device and get_block_device of kernel/src/block.c.
use stewieos.Prelude.{
  ℕ, zero, suc, arith, refl, ◌+◌, ◌≡◌, none, some, get_or-set, set-set, set-get_or, ◌≤◌, Errno,
  length, ◌<◌, if◌then◌else◌, true, ◌==◌, false, lt_of_some, suc, leb, Bool-cases, set, inl, ◌∙◌,
  inr, ap, sym, ◌≢◌, Option-cases, Bool, List, get_or-set_ne, Option, leb_false→lt,
}
use stewieos.Block.{
  DevId, Code, done, fail, driver, Device, Ops, Table, slot, is_free, first_free, get_block_device,
  block_attach, succeeded, block_detach, register_block_device, unregister_block_device,
}

module _ {D : Type 0} where
  -- the first free slot among those of `major` up to `major + left`
  pub first_free_lem :
      (t : Table D) (major left : ℕ)
      → let m = first_free t major left in
        (major ≤ m)
        × (m ≤ major + left)
        × (m < major + left → is_free (slot t m) ≡ true)
        × ((k : ℕ) → major ≤ k → k < m → is_free (slot t k) ≡ false)
  unfolding first_free
  first_free_lem t major zero =
      (omega arith, omega arith, λ h. absurd (omega arith), λ k p q. absurd (omega arith))
  first_free_lem t major (suc left) =
      let ih = first_free_lem t (major + 1) left in
      elim (Bool-cases (is_free (slot t major))) [
        | inl f ↦ rw f (omega arith, omega arith, λ h. f, λ k p q. absurd (omega arith))
        | inr f ↦ rw f (
          omega arith,
          omega arith,
          λ h. ih.2 (omega arith),
          λ k p q. elim (Bool-cases (k == major)) [
            | inl e ↦ let e' : k ≡ major = ground arith in rw e' f
            | inr e ↦ ih.3 k (ground arith) q
          ],
        )
      ]

  empty_of_free : (o : Option (Device D)) → is_free o ≡ true → o ≡ none
  empty_of_free none e = refl
  empty_of_free (some d) e = cc

  detach_missing :
      (t : Table D) (major : ℕ)
      → slot t major ≡ none
      → block_detach t (record { major = major; minor = 0 }) ≡ (fail Errno.eperm, t)
  unfolding block_detach get_block_device
  detach_missing t major e = ground arith

  -- unregister_block_device never removes a device: on a registered one it returns -EBUSY, or, with
  -- no references left, -1, and leaves the table of 256 slots as it was either way. (It clears the
  -- slot before block_detach looks the device up there.)
  pub unregister_block_device-keeps :
      (t : Table D) (major : ℕ) (d : Device D)
      → length t ≡ 256
      → slot t major ≡ some d
      → unregister_block_device major t
        ≡ (if d.refs == 0 then fail Errno.eperm else fail Errno.ebusy, t)
  unfolding unregister_block_device
  unregister_block_device-keeps t major d n e =
      let less = lt_of_some t major d e in
      let in_range : leb 256 major ≡ false = ground arith in
      let empty : slot (set t major none) major ≡ none =
        get_or-set t major major none none less ∙ ground arith in
      let back : set (set t major none) major (some d) ≡ t =
        set-set t major none (some d) ∙ ap (set t major) (sym e) ∙ set-get_or t major none less in
      ground (arith, detach_missing (set t major none) major empty)

  -- A table of 256 slots after a registration that the code accepted, or refused.
  abbrev pub RegisteredIf : Bool → (t : Table D) (major nminors : ℕ) → Ops D → Table D → Type 0
  RegisteredIf true t major nminors ops t' =
      (m : ℕ) × (d : Device D) × (m < 256)
      × ((major < 256) → m ≡ major)
      × (slot t m ≡ none)
      × (slot t' m ≡ some d)
      × (d.ops ≡ ops)
      × (d.nminors ≡ nminors)
      × (d.blksz ≡ 512)
      × (d.refs ≡ 0)
      × ((k : ℕ) → k ≢ m → slot t' k ≡ slot t k)
  RegisteredIf false t major nminors ops t' = t' ≡ t

  abbrev pub Registered : (t : Table D) (major nminors : ℕ) → Ops D → Code × Table D → Type 0
  Registered t major nminors ops (c, t') = RegisteredIf (succeeded c) t major nminors ops t'

  get_block_device-slot :
      (t : Table D) (devid : DevId) (d : Device D)
      → get_block_device t devid ≡ some d
      → slot t devid.major ≡ some d
  unfolding get_block_device
  get_block_device-slot t devid d e = ground arith

  -- An attach changes at most the state of the driver.
  attach_lem :
      (t : Table D) (devid : DevId) (d : Device D)
      → slot t devid.major ≡ some d
      → (s : D) × ((block_attach t devid).1 ≡ set t devid.major (some (record d { state = s })))
  unfolding block_attach
  attach_lem t devid d e = elim (Option-cases (get_block_device t devid)) [
    | inl missing ↦ (d.state, ground (arith, same))
    | inr (d', found) ↦
        let e' = get_block_device-slot t devid d' found in
        elim (Option-cases d.ops.attach) [
          | inl z ↦ (d.state, ground (arith, same))
          | inr (f, z) ↦ ((f d.state).1, ground arith)
        ]
  ]
    where
      same : t ≡ set t devid.major (some d)
      same =
          sym (set-get_or t devid.major none (lt_of_some t devid.major d e))
          ∙ ap (set t devid.major) e

  module _ (got : Bool) (state : D) (fresh : List ℕ) (major nminors : ℕ) (ops : Ops D) (t : Table D)
      (n : length t ≡ 256) where
    target : ℕ
    target = if leb 256 major then first_free t 0 256 else major

    dev : Device D
    dev = record {
      ops = ops;
      blksz = 512;
      nminors = nminors;
      refs = 0;
      block = fresh;
      state = state;
    }

    attached : Code × Table D
    attached = block_attach (set t target (some dev)) (record { major = target; minor = 0 })

    attached_lem :
        target < 256 → (s : D) × (attached.1 ≡ set t target (some (record dev { state = s })))
    unfolding attached
    attached_lem h =
        let (s, e) =
          attach_lem (set t target (some dev)) (record { major = target; minor = 0 }) dev
            (get_or-set t target target (some dev) none (omega arith) ∙ ground arith) in
        (s, e ∙ set-set t target (some dev) _)

    accepted :
        target < 256 → slot t target ≡ none → RegisteredIf true t major nminors ops attached.1
    unfolding target dev
    accepted h empty =
        let (s, e) = attached_lem h in
        (
          target,
          record dev { state = s },
          h,
          λ l. ground arith,
          empty,
          ap (λ u. slot u target) e
              ∙ get_or-set t target target _ none (omega arith)
              ∙ ground arith,
          refl,
          refl,
          refl,
          refl,
          λ k ne. ap (λ u. slot u k) e ∙ get_or-set_ne t target k _ none (λ q. ne (sym q)),
        )

    refused : target < 256 → slot t target ≡ none → set attached.1 target none ≡ t
    refused h empty =
        let (s, e) = attached_lem h in
        ap (λ u. set u target none) e
        ∙ set-set t target _ none
        ∙ ap (set t target) (sym empty)
        ∙ set-get_or t target none (omega arith)

    finish :
        (c : Code) (t' : Table D)
        → RegisteredIf true t major nminors ops t'
        → set t' target none ≡ t
        → Registered t major nminors ops
            (if succeeded c then (done 0, t') else (c, set t' target none))
    finish (done zero) t' a r = a
    finish (done (suc n)) t' a r = r
    finish (fail e) t' a r = r
    finish (driver z) t' a r = r
    finish (Code.negative z) t' a r = r

    -- register_block_device on a table of 256 slots either succeeds, and then one slot that was
    -- empty, the one asked for if it is below 256, holds a new device with the operations and minors
    -- given, blocks of 512 bytes and no references, and every other slot is as it was; or it fails
    -- and leaves the table as it was.
    pub register_block_device-Registered :
        Registered t major nminors ops (register_block_device got state fresh major nminors ops t)
    unfolding register_block_device target attached dev
    register_block_device-Registered = elim (Bool-cases (leb 256 target)) [
      | inl out ↦ rw out refl
      | inr less ↦ elim (Bool-cases (is_free (slot t target))) [
        | inr busy ↦ rw (less, busy) refl
        | inl free ↦ elim (Bool-cases got) [
          | inr out ↦ rw (less, free, out) refl
          | inl mem ↦
              let h = leb_false→lt 256 target less in
              let empty = empty_of_free _ free in
              rw (less, free, mem)
                (finish attached.0 attached.1 (accepted h empty) (refused h empty))
        ]
      ]
    ]
