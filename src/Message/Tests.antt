-- ===== src/Message/Tests.antt =====
-- Small runs of kernel/src/message.c: a task with pid 4 waits, one with pid 5 does not.
use stewieos.Prelude.{◌≡◌, refl, [], ◌∷◌, true, false, List}
use stewieos.Message.{
  Message, System, Limits, Popped, sys_message_send, sys_message_pop, take_message, task_lookup,
  deliver,
}
use stewieos.Message.Order.{
  Ledger, Ordered, here, next, send, pop, after_pop, with_id, Reach-Ordered, SentTo, sent_to,
}
use stewieos.Message.Send.{Sent, sys_message_send-Sent}

abbrev limits : Limits
limits = record { mesg_max_length = 4; mesg_any = 0 }

abbrev first : Message
first = record { from = 9; id = 1; content = 7 ∷ [] }

abbrev second : Message
second = record { from = 9; id = 2; content = [] }

abbrev system : System
system = record {
  tasks =
      record { t_pid = 4; waiting = true; t_mesgq = [] }
      ∷ record { t_pid = 5; waiting = false; t_mesgq = first ∷ [] }
      ∷ [];
  woken = [];
}

abbrev fresh : Ledger
fresh = record { queue = []; sent = []; received = [] }

-- 1 and 2 are sent, and 2 is asked for
abbrev both : Ledger
both = record { queue = first ∷ second ∷ []; sent = first ∷ second ∷ []; received = [] }

abbrev picked : Ledger
picked = after_pop both [] (sys_message_pop limits 2 false false (λ q. q) (first ∷ second ∷ []))

picks :
    sys_message_pop limits 2 false false (λ q. q) (first ∷ second ∷ [])
    ≡ (Popped.message second, first ∷ [])
unfolding sys_message_pop take_message
picks = refl

-- the task with pid 5, with a queue
abbrev with_queue : List Message → System
with_queue q = record {
  tasks = record { t_pid = 5; waiting = false; t_mesgq = q } ∷ [];
  woken = [];
}

first_sent : SentTo limits [] first (first ∷ [])
unfolding sys_message_send task_lookup deliver
first_sent =
    sent_to true 9 5 1 (7 ∷ []) (with_queue []) (with_queue (first ∷ [])) _ _ refl refl refl refl
      refl refl

second_sent : SentTo limits (first ∷ []) second (first ∷ second ∷ [])
unfolding sys_message_send task_lookup deliver
second_sent =
    sent_to true 9 5 2 [] (with_queue (first ∷ [])) (with_queue (first ∷ second ∷ [])) _ _ refl refl
      refl refl refl refl

Reach-Ordered_example : Ordered picked
unfolding with_id
Reach-Ordered_example =
    Reach-Ordered limits fresh picked (λ id. refl)
      (next
        (next (next here (send first (first ∷ []) first_sent))
          (send second (first ∷ second ∷ []) second_sent))
        (pop 2))

sys_message_send-Sent_example :
    Sent limits true 4 first system (sys_message_send limits true 9 4 1 (7 ∷ []) system)
sys_message_send-Sent_example = sys_message_send-Sent limits true 9 4 1 (7 ∷ []) system
