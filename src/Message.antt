-- ===== src/Message.antt =====
-- Messages between tasks, kernel/src/message.c: a queue in every task, filled by sys_message_send and
-- emptied by sys_message_pop. The queue's lock has no effect on one caller.
pub mod Order
pub mod Send
mod Tests
use stewieos.Prelude.{
  ℕ, zero, suc, ◌<◌, Bool, true, false, ◌||◌, Option, none, some, List, [], ◌∷◌, ◌++◌, ltb, ◌==◌,
  if◌then◌else◌, length, Errno, Result, ok, err,
}

-- `message_t`; its `length` is that of `content`.
pub record Message : Type 0 where
  pub from : ℕ
  pub id : ℕ
  pub content : List ℕ

-- The fields of struct task that the file uses; `waiting` is TF_WAITMESG.
pub record Task : Type 0 where
  pub t_pid : ℕ
  pub waiting : Bool
  pub t_mesgq : List Message

-- The tasks of the system, and those given to task_wakeup, the latest first.
pub record System : Type 0 where
  pub tasks : List Task
  pub woken : List ℕ

pub task_lookup : (pid : ℕ) → List Task → Option Task
task_lookup pid [] = none
task_lookup pid (t ∷ ts) = if t.t_pid == pid then some t else task_lookup pid ts

-- The list with the message at the end of the queue of the task that is looked up.
pub deliver : (pid : ℕ) → Message → List Task → List Task
deliver pid m [] = []
deliver pid m (t ∷ ts) =
    let rest = deliver pid m ts in
    if t.t_pid == pid then record t { t_mesgq = t.t_mesgq ++ m ∷ [] } ∷ ts else t ∷ rest

-- The constants of <sys/message.h>.
pub record Limits : Type 0 where
  pub mesg_max_length : ℕ
  pub mesg_any : ℕ

-- How a pop ends: with 0, with 1 and a message, or with -ENOENT.
pub data Popped : Type 0 where
  nothing : Popped
  message : Message → Popped
  missing : Popped

module _ (o : Limits) where
  -- sys_message_send by task `current`; `got` is whether kmalloc succeeds.
  pub sys_message_send :
      (got : Bool) (current pid type : ℕ) (what : List ℕ) → System → Result (Unit {0}) × System
  unfolding task_lookup deliver
  sys_message_send got current pid type what s =
      let m : Message = record { from = current; id = type; content = what } in
      if ltb o.mesg_max_length (length what)
      then (err Errno.e2big, s)
      else elim (task_lookup pid s.tasks) [
        | none ↦ (err Errno.enoent, s)
        | some who ↦
            if got
            then (
              ok tt,
              record {
                tasks = deliver pid m s.tasks;
                woken = if who.waiting then pid ∷ s.woken else s.woken;
              },
            )
            else (err Errno.enomem, s)
      ]

  -- Whether a message has the id asked for.
  abbrev pub matches : (id : ℕ) → Message → Bool
  matches id m = (m.id == id) || (id == o.mesg_any)

  -- The loop over the queue; with `leave` the message stays.
  pub take_message : (id : ℕ) (leave : Bool) → List Message → Popped × List Message
  take_message id leave [] = (Popped.missing, [])
  take_message id leave (m ∷ ms) =
      let (p, rest) = take_message id leave ms in
      if matches id m then (Popped.message m, if leave then m ∷ ms else ms) else (p, m ∷ rest)

  -- sys_message_pop on the queue of the caller. `event` is what happens to the queue while the task
  -- waits for a message.
  pub sys_message_pop :
      (id : ℕ) (wait leave : Bool) (event : List Message → List Message)
      → List Message
      → Popped × List Message
  unfolding take_message
  sys_message_pop id wait leave event [] =
      if wait then take_message id leave (event []) else (Popped.nothing, [])
  sys_message_pop id wait leave event (m ∷ ms) = take_message id leave (m ∷ ms)
