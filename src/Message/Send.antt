-- ===== src/Message/Send.antt =====
-- sys_message_send of kernel/src/message.c on every path.
use stewieos.Prelude.{
  ℕ, ◌≤◌, ◌<◌, ◌≡◌, refl, ◌≢◌, Bool, true, false, none, some, List, [], ◌∷◌, ◌++◌, arith, ltb, ◌==◌,
  if◌then◌else◌, length, Errno, Result, ok, err, inl, inr, Bool-cases, Option-cases, ◌∙◌, ap,
}
use mathlib.Core.Option.{map}
use stewieos.Message.{Message, Task, System, Limits, task_lookup, deliver, sys_message_send}

-- The queue of the task with a pid.
abbrev pub queue_of : ℕ → List Task → List Message
queue_of pid ts = elim (task_lookup pid ts) [ none ↦ [] | some t ↦ t.t_mesgq ]

-- The outcome of a send of `m` to `pid`: a refusal, which has its reason and changes nothing, or a
-- delivery to that task alone.
abbrev pub Sent :
    (o : Limits) (got : Bool) (pid : ℕ) (m : Message) (s : System)
    → Result (Unit {0}) × System
    → Type 0
Sent o got pid m s (ok u, s') =
    (length m.content ≤ o.mesg_max_length)
    × (got ≡ true)
    × ((who : Task) × (task_lookup pid s.tasks ≡ some who)
        × (task_lookup pid s'.tasks ≡ some (record who { t_mesgq = who.t_mesgq ++ m ∷ [] }))
        × (s'.woken ≡ (if who.waiting then pid ∷ s.woken else s.woken)))
    × ((p : ℕ) → p ≢ pid → task_lookup p s'.tasks ≡ task_lookup p s.tasks)
Sent o got pid m s (err Errno.e2big, s') = (o.mesg_max_length < length m.content) × (s' ≡ s)
Sent o got pid m s (err Errno.enoent, s') = (task_lookup pid s.tasks ≡ none) × (s' ≡ s)
Sent o got pid m s (err Errno.enomem, s') = (got ≡ false) × (s' ≡ s)
Sent o got pid m s (err e, s') = ⊥

abbrev with_message : Message → Task → Task
with_message m t = record t { t_mesgq = t.t_mesgq ++ m ∷ [] }

task_lookup-deliver :
    (pid : ℕ) (m : Message) (ts : List Task)
    → task_lookup pid (deliver pid m ts) ≡ map (with_message m) (task_lookup pid ts)
unfolding task_lookup deliver
task_lookup-deliver pid m [] = refl
task_lookup-deliver pid m (t ∷ ts) = elim (Bool-cases (t.t_pid == pid)) [
  | inl e ↦ rw e (rw e refl)
  | inr e ↦ rw e (rw e (task_lookup-deliver pid m ts))
]

task_lookup-deliver_ne :
    (pid p : ℕ) (m : Message) (ts : List Task)
    → p ≢ pid
    → task_lookup p (deliver pid m ts) ≡ task_lookup p ts
unfolding task_lookup deliver
task_lookup-deliver_ne pid p m [] n = refl
task_lookup-deliver_ne pid p m (t ∷ ts) n =
    let ih = task_lookup-deliver_ne pid p m ts n in
    elim (Bool-cases (t.t_pid == pid)) [
      | inl e ↦ rw e (ground arith)
      | inr e ↦ rw e (elim (Bool-cases (t.t_pid == p)) [ inl h ↦ rw h refl | inr h ↦ rw h ih ])
    ]

-- sys_message_send succeeds only for a message within the limit, a pid that some task has, and memory:
-- then the message stands at the end of that task's queue, the task is woken if it waits for a
-- message, and what is looked up under any other pid is as it was. Otherwise it returns -E2BIG,
-- -ENOENT or -ENOMEM, for its reason, and changes nothing.
pub sys_message_send-Sent :
    (o : Limits) (got : Bool) (current pid type : ℕ) (what : List ℕ) (s : System)
    → Sent o got pid
        (record { from = current; id = type; content = what })
        s
        (sys_message_send o got current pid type what s)
unfolding sys_message_send
sys_message_send-Sent o got current pid type what s =
    elim (Bool-cases (ltb o.mesg_max_length (length what))) [
      | inl long ↦ rw long (ground arith, refl)
      | inr short ↦ elim (Option-cases (task_lookup pid s.tasks)) [
        | inl missing ↦ rw (short, missing) (missing, refl)
        | inr (who, found) ↦ elim (Bool-cases got) [
          | inr out ↦ rw (short, found, out) (refl, refl)
          | inl mem ↦
              rw (short, found, mem)
                (
                  ground arith,
                  refl,
                  (
                    who,
                    found,
                    task_lookup-deliver pid m s.tasks ∙ ap (map (with_message m)) found,
                    refl,
                  ),
                  λ p n. task_lookup-deliver_ne pid p m s.tasks n,
                )
        ]
      ]
    ]
  where
    m : Message
    m = record { from = current; id = type; content = what }
