-- ===== src/Sem/Tests.antt =====
-- Small runs of kernel/src/sem.c: one unit, tasks 1 to 4.
use stewieos.Prelude.{ℕ, [], ◌∷◌, ◌≡◌, refl, arith, ◌==◌, if◌then◌else◌, false, some, ok}
use stewieos.Sem.{World, Outcome, sem_wait, sem_timeout, scan, assign, forever}
use stewieos.Sem.Conserve.{Ledger, Balanced, here, next, got, Reach-Balanced}
use stewieos.Sem.Owed.{owed, occurs}
use stewieos.Sem.Timeout.{TimedOut, sem_timeout-TimedOut}

abbrev open_world : World
open_world = record {
  sem = record { units = 1; locked = false; tasks = []; earliest_timeout = forever };
  t_timeout = λ t. 0;
  woken = [];
  timers = [];
}

-- no unit, and task 3 waits for tick 50, task 4 for tick 90
abbrev busy : World
busy = record {
  sem = record { units = 0; locked = false; tasks = 3 ∷ 4 ∷ []; earliest_timeout = 50 };
  t_timeout = λ t. if t == 3 then 50 else 90;
  woken = [];
  timers = 50 ∷ [];
}

abbrev taken : World
taken = record open_world { sem = record open_world.sem { units = 0 } }

abbrev ledger : World → ℕ → Ledger
ledger w n = record { world = w; signalled = 0; granted = n }

takes : sem_wait 1 10 5 open_world ≡ Outcome.returned (ok tt) taken
unfolding sem_wait
takes = refl

times_out :
    sem_timeout 60 busy
    ≡ some (
      some 90,
      record {
        sem = record busy.sem { tasks = 4 ∷ [] };
        t_timeout = assign busy.t_timeout 3 0;
        woken = 3 ∷ [];
        timers = 50 ∷ [];
      },
    )
unfolding sem_timeout scan
times_out = refl

Reach-Balanced_example : Balanced 1 (ledger taken 1)
Reach-Balanced_example =
    Reach-Balanced 1 (ledger open_world 0) (ledger taken 1) 1 (omega arith)
      (record {
        balance = unfold owed in refl;
        waiting = λ n. absurd (n refl);
        apart = λ x. unfold occurs in omega arith;
      })
      (next here (got 1 10 5 taken takes))

sem_timeout-TimedOut_example : TimedOut 60 busy (sem_timeout 60 busy)
sem_timeout-TimedOut_example = sem_timeout-TimedOut 60 busy refl
