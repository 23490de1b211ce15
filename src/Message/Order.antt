-- ===== src/Message/Order.antt =====
-- The order in which messages of kernel/src/message.c come out of a queue.
use stewieos.Prelude.{
  none, ℕ, ◌≡◌, refl, ◌∙◌, ap, sym, Bool, true, false, List, [], ◌∷◌, ◌++◌, arith, ◌==◌,
  if◌then◌else◌, inl, inr, Bool-cases, ◌≢◌, some, Option, ltb, length, Errno, ap₂,
}
use mathlib.Core.List.{append_assoc, append-nil}
use stewieos.Message.{
  Message, Limits, Popped, take_message, sys_message_pop, matches, Task, System, task_lookup,
  deliver, sys_message_send, ok, err,
}

-- The messages with an id, in their order.
unfoldable pub with_id : ℕ → List Message → List Message
with_id id [] = []
with_id id (m ∷ ms) = if m.id == id then m ∷ with_id id ms else with_id id ms

with_id-append :
    (id : ℕ) (ms ns : List Message) → with_id id (ms ++ ns) ≡ with_id id ms ++ with_id id ns
unfolding with_id
with_id-append id [] ns = refl
with_id-append id (m ∷ ms) ns = elim (Bool-cases (m.id == id)) [
  | inl e ↦ simp e (ap (◌∷◌ m) (with_id-append id ms ns))
  | inr e ↦ simp e (with_id-append id ms ns)
]

cons_nil : {m : Message} {ms : List Message} → m ∷ ms ≢ []
cons_nil = cc

with_id_here :
    (id : ℕ) (m : Message) (ms : List Message)
    → (m.id == id) ≡ true
    → with_id id (m ∷ ms) ≡ m ∷ with_id id ms
unfolding with_id
with_id_here id m ms e = simp e refl

with_id_later :
    (id : ℕ) (m : Message) (ms : List Message)
    → (m.id == id) ≡ false
    → with_id id (m ∷ ms) ≡ with_id id ms
unfolding with_id
with_id_later id m ms e = simp e refl

abbrev pub popped : Popped → List Message
popped Popped.nothing = []
popped (Popped.message m) = m ∷ []
popped Popped.missing = []

-- the queue of the task that a message is delivered to
deliver-lookup :
    (pid : ℕ) (m : Message) (t : Task) (ts : List Task)
    → task_lookup pid ts ≡ some t
    → task_lookup pid (deliver pid m ts) ≡ some (record t { t_mesgq = t.t_mesgq ++ m ∷ [] })
unfolding task_lookup deliver
deliver-lookup pid m t [] e = ground (arith, e)
deliver-lookup pid m t (u ∷ us) e = elim (Bool-cases (u.t_pid == pid)) [
  | inl h ↦
      let f : some u ≡ some t = rw h at e in
      rw h (
        rw h (
          ap
            (λ (o : Option Task). elim o [
              | none ↦ none
              | some v ↦ some (record v { t_mesgq = v.t_mesgq ++ m ∷ [] })
            ])
            f))
  | inr h ↦ rw h (rw h (deliver-lookup pid m t us (rw h at e)))
]

-- A queue, the messages ever sent to it, and those ever taken out, in order.
pub record Ledger : Type 0 where
  pub queue : List Message
  pub sent : List Message
  pub received : List Message

-- With every id, the messages that were sent are those received, followed by those in the queue.
abbrev pub Ordered : Ledger → Type 0
Ordered l = (id : ℕ) → with_id id l.sent ≡ with_id id l.received ++ with_id id l.queue

-- The ledger after a pop that found the queue with `ms` more messages.
abbrev pub after_pop : Ledger → List Message → Popped × List Message → Ledger
after_pop l ms (p, rest) = record {
  queue = rest;
  sent = l.sent ++ ms;
  received = l.received ++ popped p;
}

module _ (o : Limits) where
  -- sys_message_send to a task with queue `q` succeeds; `q'` is the task's queue afterwards.
  pub data SentTo (q : List Message) (m : Message) (q' : List Message) : Type 0 where
    sent_to :
        (got : Bool) (current pid type : ℕ) (what : List ℕ) (s s' : System) (t t' : Task)
        → m ≡ record { from = current; id = type; content = what }
        → task_lookup pid s.tasks ≡ some t
        → t.t_mesgq ≡ q
        → sys_message_send o got current pid type what s ≡ (ok tt, s')
        → task_lookup pid s'.tasks ≡ some t'
        → t'.t_mesgq ≡ q'
        → SentTo q m q'

  -- Several messages are sent, one after the other.
  pub data AllSentTo (q : List Message) : List Message → List Message → Type 0 where
    none_sent : AllSentTo q [] q
    one_more :
        (ms : List Message) (m : Message) (q1 q2 : List Message)
        → AllSentTo q ms q1
        → SentTo q1 m q2
        → AllSentTo q (ms ++ m ∷ []) q2

  sys_message_send-tasks :
      (got : Bool) (current pid type : ℕ) (what : List ℕ) (s s' : System) (t : Task)
      → task_lookup pid s.tasks ≡ some t
      → sys_message_send o got current pid type what s ≡ (ok tt, s')
      → s'.tasks ≡ deliver pid (record { from = current; id = type; content = what }) s.tasks
  unfolding sys_message_send
  sys_message_send-tasks got current pid type what s s' t e h =
      elim (Bool-cases (ltb o.mesg_max_length (length what))) [
        | inl l ↦
            let f : (err Errno.e2big, s) ≡ (ok tt, s') = rw l at h in
            ground (arith, ap (λ r. r.0) f)
        | inr l ↦ elim (Bool-cases got) [
          | inl g ↦ sym (ap (λ r. r.1.tasks) (rw (l, e, g) at h))
          | inr g ↦
              let f : (err Errno.enomem, s) ≡ (ok tt, s') = rw (l, e, g) at h in
              ground (arith, ap (λ r. r.0) f)
        ]
      ]

  SentTo-append :
      (q : List Message) (m : Message) (q' : List Message) → SentTo q m q' → q' ≡ q ++ m ∷ []
  SentTo-append q m q' (sent_to got current pid type what s s' t t' em e eq h e' eq') =
      let m' : Message = record { from = current; id = type; content = what } in
      let d = sys_message_send-tasks got current pid type what s s' t e h in
      let f : some t' ≡ some (record t { t_mesgq = t.t_mesgq ++ m' ∷ [] }) =
        sym e' ∙ ap (task_lookup pid) d ∙ deliver-lookup pid m' t s.tasks e in
      let g : t'.t_mesgq ≡ t.t_mesgq ++ m' ∷ [] =
        ap (λ (x : Option Task). elim x [ none ↦ [] | some v ↦ v.t_mesgq ]) f in
      sym eq' ∙ g ∙ ap₂ (λ (a : List Message) (b : Message). a ++ b ∷ []) eq (sym em)

  AllSentTo-append : (q ms q' : List Message) → AllSentTo q ms q' → q' ≡ q ++ ms
  AllSentTo-append q ms q' none_sent = sym (append-nil q)
  AllSentTo-append q ms' q' (one_more ms m q1 q2 r s) =
      SentTo-append q1 m q2 s
      ∙ ap (λ a. a ++ m ∷ []) (AllSentTo-append q ms q1 r)
      ∙ append_assoc q ms (m ∷ [])

  -- A send; a pop of a queue without a wait; and a pop that waits while others send.
  pub data Step (l : Ledger) : Ledger → Type 0 where
    send :
        (m : Message) (q' : List Message)
        → SentTo l.queue m q'
        → Step l (record l { queue = q'; sent = l.sent ++ m ∷ [] })
    pop : (id : ℕ) → Step l (after_pop l [] (sys_message_pop o id false false (λ q. q) l.queue))
    pop_wait :
        (id : ℕ) (ms : List Message) (event : List Message → List Message)
        → l.queue ≡ []
        → AllSentTo [] ms (event [])
        → Step l (after_pop l ms (sys_message_pop o id true false event l.queue))

  pub data Reach (l : Ledger) : Ledger → Type 0 where
    here : Reach l l
    next : {m k : Ledger} → Reach l m → Step m k → Reach l k

  take_message_other :
      (want id : ℕ) (q : List Message)
      → (want == o.mesg_any) ≡ false
      → (want == id) ≡ false
      → with_id id (popped (take_message o want false q).0) ≡ []
  unfolding take_message with_id
  take_message_other want id [] a n = refl
  take_message_other want id (m ∷ ms) a n =
      let rest = take_message_other want id ms a n in
      elim (Bool-cases (m.id == want)) [
        | inl e ↦ simp (a, e) (ground arith)
        | inr e ↦ simp (a, e) rest
      ]

  take_message-with_id :
      (want id : ℕ) (q : List Message)
      → let (p, rest) = take_message o want false q in
        with_id id q ≡ with_id id (popped p) ++ with_id id rest
  unfolding take_message with_id
  take_message-with_id want id [] = refl
  take_message-with_id want id (m ∷ ms) =
      let (p, rest) = take_message o want false ms in
      let ih = take_message-with_id want id ms in
      elim (Bool-cases (matches o want m)) [
        | inl e ↦ elim (Bool-cases (m.id == id)) [
          | inl h ↦ simp (e, h) refl
          | inr h ↦ simp (e, h) refl
        ]
        | inr e ↦ elim (Bool-cases (m.id == id)) [
          | inr h ↦ simp (e, h) ih
          | inl h ↦
              let other = take_message_other want id ms (ground arith) (ground arith) in
              simp (e, h)
                (ap (◌∷◌ m) (ih ∙ ap (λ ns. ns ++ with_id id rest) other)
                  ∙ sym (ap (λ ns. ns ++ m ∷ with_id id rest) other))
        ]
      ]

  pop-with_id :
      (want id : ℕ) (q : List Message)
      → let (p, rest) = sys_message_pop o want false false (λ q. q) q in
        with_id id q ≡ with_id id (popped p) ++ with_id id rest
  unfolding sys_message_pop with_id
  pop-with_id want id [] = refl
  pop-with_id want id (m ∷ ms) = take_message-with_id want id (m ∷ ms)

  pop_wait-with_id :
      (want id : ℕ) (ms q : List Message) (event : List Message → List Message)
      → q ≡ []
      → event [] ≡ ms
      → let (p, rest) = sys_message_pop o want true false event q in
        with_id id (q ++ ms) ≡ with_id id (popped p) ++ with_id id rest
  unfolding sys_message_pop
  pop_wait-with_id want id ms [] event e f =
      ap (with_id id) (sym f) ∙ take_message-with_id want id (event [])
  pop_wait-with_id want id ms (m ∷ q) event e f = absurd (cons_nil e)

  after_pop-Ordered :
      (l : Ledger) (ms : List Message) (r : Popped × List Message)
      → Ordered l
      → ((id : ℕ) → with_id id (l.queue ++ ms) ≡ with_id id (popped r.0) ++ with_id id r.1)
      → Ordered (after_pop l ms r)
  after_pop-Ordered l ms (p, rest) ordered out id =
      with_id-append id l.sent ms
      ∙ ap (λ ns. ns ++ with_id id ms) (ordered id)
      ∙ append_assoc (with_id id l.received) _ _
      ∙ ap (◌++◌ (with_id id l.received)) (sym (with_id-append id l.queue ms) ∙ out id)
      ∙ sym (append_assoc (with_id id l.received) _ _)
      ∙ ap (λ ns. ns ++ with_id id rest) (sym (with_id-append id l.received (popped p)))

  -- Whatever messages sys_message_send delivers to a task, and whatever ids it asks for, with a wait or without, the
  -- messages of each id that it has received, followed by those in its queue, are those that were
  -- sent with that id, in order: none is lost, repeated or overtaken by a later one of its id.
  pub Reach-Ordered : (l m : Ledger) → Ordered l → Reach l m → Ordered m
  Reach-Ordered l m h here = h
  Reach-Ordered l m h (next {m = k} r (send a q' s)) = λ id.
      let ih = Reach-Ordered l k h r id in
      with_id-append id k.sent (a ∷ [])
      ∙ ap (λ ns. ns ++ with_id id (a ∷ [])) ih
      ∙ append_assoc (with_id id k.received) _ _
      ∙ ap (◌++◌ (with_id id k.received)) (
          sym (with_id-append id k.queue (a ∷ []))
          ∙ ap (with_id id) (sym (SentTo-append k.queue a q' s)))
  Reach-Ordered l m h (next {m = k} r (pop want)) =
      after_pop-Ordered k [] _ (Reach-Ordered l k h r)
        λ id. ap (with_id id) (append-nil k.queue) ∙ pop-with_id want id k.queue
  Reach-Ordered l m h (next {m = k} r (pop_wait want ms event e s)) =
      after_pop-Ordered k ms _ (Reach-Ordered l k h r)
        λ id. pop_wait-with_id want id ms k.queue event e (AllSentTo-append [] ms (event []) s)

  take_message-misses :
      (want : ℕ) (leave : Bool) (ms : List Message)
      → (want == o.mesg_any) ≡ false
      → with_id want ms ≡ []
      → take_message o want leave ms ≡ (Popped.missing, ms)
  unfolding take_message with_id
  take_message-misses want leave [] n e = refl
  take_message-misses want leave (m ∷ ms) n e = elim (Bool-cases (m.id == want)) [
    | inl h ↦ absurd (cons_nil (sym (with_id_here want m ms h) ∙ e))
    | inr h ↦
        let ih = take_message-misses want leave ms n (sym (with_id_later want m ms h) ∙ e) in
        simp (n, h) (ap (λ r. (r.0, m ∷ r.1)) ih)
  ]

  -- A pop that waits on an empty queue still answers -ENOENT if the messages that come while it
  -- waits are all of other ids: it does not go on waiting for the id it asked for.
  pub sys_message_pop-misses :
      (want : ℕ) (leave : Bool) (ms : List Message)
      → want ≢ o.mesg_any
      → with_id want ms ≡ []
      → sys_message_pop o want true leave (λ q. q ++ ms) [] ≡ (Popped.missing, ms)
  unfolding sys_message_pop
  sys_message_pop-misses want leave ms n e = take_message-misses want leave ms (ground arith) e
