-- ===== src/Pipe/Wait.antt =====
-- pipe_read of kernel/src/pipe.c across its sleeps.
use stewieos.Prelude.{
  ℕ, zero, suc, ◌+◌, ◌-◌, ◌≤◌, ◌<◌, ◌≡◌, refl, ◌∙◌, ap, sym, List, [], ◌∷◌, ◌++◌, arith, length,
  take, ◌⊎◌, inl, inr, ◌≢◌, true, false, ◌==◌, Bool-cases, map, length-take, take-append, flatten,
  length-append, some, subst, ap₂, length-map, ◌^◌,
}
use mathlib.Core.List.{append_assoc, append-nil}
use native.Mathlib.Nat.{add-suc}
use stewieos.Ring.{length-pending}
use stewieos.Pipe.{Pipe, Reading, drain, read_loop, pipe_read, write_bytes, empty, ended, as_ssize}
use stewieos.Pipe.Transfer.{
  IsValid, used, contents, drain-Drained, contents-write_bytes, write_bytes-IsValid, behind,
  write_bytes-SameUsers, contents_empty,
}

-- The copying loop stops because it has copied enough or because the pipe is empty.
drain_stops :
    (want : ℕ) (p : Pipe)
    → let (bs, p') = drain want p in (want - length bs ≡ 0) ⊎ (empty p' ≡ true)
unfolding drain
drain_stops zero p = inl (omega arith)
drain_stops (suc want) p =
    let rest = drain_stops want (behind p) in
    elim (Bool-cases (p.read == p.write)) [
      | inl e ↦ rw e (inr e)
      | inr e ↦ rw e (elim rest [ inl z ↦ inl (omega (arith, z)) | inr z ↦ inr z ])
    ]

abbrev Ends : Reading → Type 0
Ends Reading.out_of_fuel = ⊥
Ends r = Unit

ended-Ends : (buffer : List ℕ) (p : Pipe) → Ends (ended buffer p)
ended-Ends [] p = tt
ended-Ends (b ∷ bs) p = tt

-- The loop ends from a state that a sleep leads back to, and from any other.
settled-Ends :
    (fuel : ℕ) (events : List (Pipe → Pipe)) (want : ℕ) (buffer : List ℕ) (p : Pipe)
    → length events < fuel
    → (want ≡ 0) ⊎ (empty p ≡ true)
    → Ends (read_loop fuel events want buffer p)
unfolding read_loop
settled-Ends zero events want buffer p h s = absurd (omega arith)
settled-Ends (suc fuel) [] want buffer p h s = elim (Bool-cases (want == 0)) [
  | inl z ↦ rw z tt
  | inr n ↦
      let e : empty p ≡ true = ground arith in
      elim (Bool-cases (p.nwriters == 0)) [
        | inl w ↦ rw (n, w, e) (ended-Ends buffer p)
        | inr w ↦ rw (n, w, e) tt
      ]
]
settled-Ends (suc fuel) (event ∷ events) want buffer p h s =
    let (bs, q) = drain want (event p) in
    let rest =
      settled-Ends fuel events (want - length bs) (buffer ++ bs) q (omega arith)
        (drain_stops want (event p)) in
    elim (Bool-cases (want == 0)) [
      | inl z ↦ rw z tt
      | inr n ↦
          let e : empty p ≡ true = ground arith in
          elim (Bool-cases (p.nwriters == 0)) [
            | inl w ↦ rw (n, w, e) (ended-Ends buffer p)
            | inr w ↦ rw (n, w, e) rest
          ]
    ]

-- The first round, when bytes wait: they are copied, and the loop goes on.
first_round :
    (fuel : ℕ) (events : List (Pipe → Pipe)) (want : ℕ) (buffer : List ℕ) (p : Pipe)
    → (want == 0) ≡ false
    → empty p ≡ false
    → let (bs, q) = drain want p in
      read_loop (suc fuel) events want buffer p
      ≡ read_loop fuel events (want - length bs) (buffer ++ bs) q
unfolding read_loop
first_round fuel [] want buffer p n e =
    rw (n, e) (elim (Bool-cases (p.nwriters == 0)) [ inl w ↦ rw w | inr w ↦ rw w ])
first_round fuel (event ∷ events) want buffer p n e =
    rw (n, e) (elim (Bool-cases (p.nwriters == 0)) [ inl w ↦ rw w | inr w ↦ rw w ])

unsettled-Ends :
    (fuel : ℕ) (events : List (Pipe → Pipe)) (want : ℕ) (buffer : List ℕ) (p : Pipe)
    → length events < fuel
    → (want == 0) ≡ false
    → empty p ≡ false
    → Ends (read_loop (suc fuel) events want buffer p)
unsettled-Ends fuel events want buffer p h n e =
    let (bs, q) = drain want p in
    subst Ends (sym (first_round fuel events want buffer p n e))
      (settled-Ends fuel events (want - length bs) (buffer ++ bs) q h (drain_stops want p))

loop-Ends :
    (events : List (Pipe → Pipe)) (want : ℕ) (p : Pipe)
    → Ends (read_loop (length events + 3) events want [] p)
loop-Ends events want p = elim (Bool-cases (want == 0)) [
  | inl z ↦ settled-Ends (length events + 3) events want [] p (omega arith) (inl (ground arith))
  | inr n ↦ elim (Bool-cases (empty p)) [
    | inl e ↦ settled-Ends (length events + 3) events want [] p (omega arith) (inr e)
    | inr e ↦
        rw (add-suc (length events) 2)
          (unsettled-Ends (length events + 2) events want [] p (omega arith) n e)
  ]
]

-- pipe_read never runs out of the fuel that the model gives it, whatever the other tasks do while it
-- sleeps: it returns, or is still asleep when they have nothing more to do.
pub pipe_read-Ends :
    (current : ℕ) (events : List (Pipe → Pipe)) (count : ℕ) (p : Pipe)
    → pipe_read current events count p ≢ Reading.out_of_fuel
unfolding pipe_read
pipe_read-Ends current events count p =
    λ e. subst Ends e (loop-Ends events (as_ssize count) (record p { reader = some current }))

-- The bytes that a call returned.
abbrev pub IsGot : List ℕ → Reading → Type 0
IsGot bytes (Reading.eof p) = ⊥
IsGot bytes (Reading.got bs p) = bs ≡ bytes
IsGot bytes (Reading.asleep bs p) = ⊥
IsGot bytes Reading.out_of_fuel = ⊥

-- Every chunk fits into an empty pipe.
abbrev pub AllShorter : ℕ → List (List ℕ) → Type 0
AllShorter len [] = Unit
AllShorter len (c ∷ cs) = (length c < len) × AllShorter len cs

settled_stream :
    (fuel : ℕ) (chunks : List (List ℕ)) (want : ℕ) (buffer : List ℕ) (p : Pipe)
    → length chunks < fuel
    → IsValid p
    → p.nwriters ≢ 0
    → AllShorter p.len chunks
    → (want ≡ 0) ⊎ (empty p ≡ true)
    → want ≤ length (flatten chunks)
    → IsGot
        (buffer ++ take want (flatten chunks))
        (read_loop fuel (map write_bytes chunks) want buffer p)
unfolding read_loop
settled_stream zero chunks want buffer p h v w short s enough = absurd (omega arith)
settled_stream (suc fuel) [] want buffer p h v w short s enough =
    let z : want ≡ 0 = omega arith in rw z (sym (append-nil buffer))
settled_stream (suc fuel) (c ∷ cs) want buffer p h v w short s enough =
    let p1 : Pipe = write_bytes c p in
    let d = drain-Drained want p1 (write_bytes-IsValid c p v) in
    let u = write_bytes-SameUsers c p in
    let bs : List ℕ = (drain want p1).0 in
    let q : Pipe = (drain want p1).1 in
    elim (Bool-cases (want == 0)) [
      | inl z ↦ let z' : want ≡ 0 = ground arith in rw z' (sym (append-nil buffer))
      | inr n ↦
          let e : empty p ≡ true = ground arith in
          let nw : (p.nwriters == 0) ≡ false = ground arith in
          let same : p.read ≡ p.write = ground arith in
          let none_left = contents_empty p same in
          let now : contents p1 ≡ c =
            contents-write_bytes c p v (
              ground (
                arith,
                ap length none_left,
                length-pending p.len p.buffer p.read (used p),
                short.0,
              ))
            ∙ ap (λ b. b ++ c) none_left in
          let took : bs ≡ take want c = d.bytes ∙ ap (take want) now in
          let len' : q.len ≡ p.len = d.users.len ∙ u.len in
          let ih =
            settled_stream fuel cs (want - length bs) (buffer ++ bs) q (omega arith) d.valid
              (rw (d.users.nwriters, u.nwriters) w) (rw len' short.1) (drain_stops want p1)
              (omega (
                arith,
                ap length took,
                length-take want c,
                length-append c (flatten cs),
                enough,
              )) in
          let shorter : want - length bs ≡ want - length c =
            omega (arith, ap length took, length-take want c) in
          let path : (buffer ++ bs) ++ take (want - length bs) (flatten cs)
              ≡ buffer ++ take want (c ++ flatten cs) =
            append_assoc buffer bs _
            ∙ ap (◌++◌ buffer) (
                ap₂ ◌++◌ took (ap (λ k. take k (flatten cs)) shorter)
                ∙ sym (take-append want c (flatten cs))) in
          rw (n, e, nw)
            (subst
              (λ b.
                IsGot b (read_loop fuel (map write_bytes cs) (want - length bs) (buffer ++ bs) q))
              path ih)
    ]

unsettled_stream :
    (fuel : ℕ) (chunks : List (List ℕ)) (want : ℕ) (p : Pipe)
    → length chunks < fuel
    → IsValid p
    → p.nwriters ≢ 0
    → AllShorter p.len chunks
    → (want == 0) ≡ false
    → empty p ≡ false
    → want ≤ length (contents p ++ flatten chunks)
    → IsGot
        (take want (contents p ++ flatten chunks))
        (read_loop (suc fuel) (map write_bytes chunks) want [] p)
unsettled_stream fuel chunks want p h v w short n e enough =
    let d = drain-Drained want p v in
    let (bs, q) = drain want p in
    let took : bs ≡ take want (contents p) = d.bytes in
    let shorter : want - length bs ≡ want - length (contents p) =
      omega (arith, ap length took, length-take want (contents p)) in
    let path : bs ++ take (want - length bs) (flatten chunks)
        ≡ take want (contents p ++ flatten chunks) =
      ap₂ ◌++◌ took (ap (λ k. take k (flatten chunks)) shorter)
      ∙ sym (take-append want (contents p) (flatten chunks)) in
    let rest =
      settled_stream fuel chunks (want - length bs) bs q h d.valid (rw d.users.nwriters w)
        (rw d.users.len short) (drain_stops want p)
        (omega (arith, shorter, length-append (contents p) (flatten chunks), enough)) in
    subst (IsGot (take want (contents p ++ flatten chunks)))
      (sym (first_round fuel (map write_bytes chunks) want [] p n e))
      (subst (λ b. IsGot b (read_loop fuel (map write_bytes chunks) (want - length bs) bs q)) path
        rest)

-- What pipe_read returns when other tasks write `chunks` during its sleeps, one chunk in each: on a
-- valid pipe that has a writer, with chunks shorter than the buffer, a count below 2 ^ 31 and enough
-- bytes in all, the first `count` of the bytes that waited already followed by those of the chunks, in order.
pub pipe_read-stream :
    (current : ℕ) (chunks : List (List ℕ)) (count : ℕ) (p : Pipe)
    → IsValid p
    → p.nwriters ≢ 0
    → AllShorter p.len chunks
    → count < 2 ^ 31
    → count ≤ length (contents p ++ flatten chunks)
    → IsGot
        (take count (contents p ++ flatten chunks))
        (pipe_read current (map write_bytes chunks) count p)
unfolding pipe_read
pipe_read-stream current chunks count p v w short positive enough =
    rw (fuel_enough, pipe_read, not_negative)
      (elim (Bool-cases (count == 0)) [
        | inl z ↦
            let z' : count ≡ 0 = ground arith in
            rw z' (
              settled_stream (suc (length chunks + 2)) chunks 0 [] p' (omega arith) v' w short
                (inl refl) (omega arith))
        | inr n ↦ elim (Bool-cases (empty p)) [
          | inl e ↦
              let none_left : contents p ≡ [] = contents_empty p (ground arith) in
              subst
                (λ c.
                  IsGot (take count (c ++ flatten chunks))
                    (read_loop (suc (length chunks + 2)) (map write_bytes chunks) count [] p'))
                (sym none_left)
                (settled_stream (suc (length chunks + 2)) chunks count [] p' (omega arith) v' w
                  short (inr e)
                  (subst (λ c. count ≤ length (c ++ flatten chunks)) none_left enough))
          | inr e ↦
              unsettled_stream (length chunks + 2) chunks count p' (omega arith) v' w short n e
                enough
        ]
      ])
  where
    p' : Pipe
    p' = record p { reader = some current }

    v' : IsValid p'
    v' = record { read_in = v.read_in; write_in = v.write_in; storage = v.storage }

    not_negative : as_ssize count ≡ count
    not_negative = ground (arith, positive)

    fuel_enough : length (map write_bytes chunks) + 3 ≡ suc (length chunks + 2)
    fuel_enough = omega (arith, length-map chunks write_bytes)
