-- ===== src/File/Reach.antt =====
-- The descriptors of all tasks under the calls of kernel/src/fs.c, fork, exit and task switches, in any
-- order.
use stewieos.Prelude.{ℕ, ◌+◌, ◌^◌, ◌<◌, Option, some, List, [], ◌∷◌, ◌++◌, Result, length, ◌≡◌}
use stewieos.Access.{Who}
use stewieos.File.{
  task_max_open_files, Flags, Kernel, Store, Proc, Descr, sys_open, sys_close, sys_dup, sys_dup2,
  copy_task_vfs, free_task_vfs,
}
use stewieos.File.Balance.{Counted}
use stewieos.File.Holders.{holders, IsTidy}

-- struct vfs of a task that does not run, and its user.
pub record Waiting : Type 0 where
  pub v_openvect : List Descr
  pub cwd : ℕ
  pub user : Who

pub data Call : Type 0 where
  open_call : (name : ℕ) → Flags → (mode : ℕ) → Call
  close_call : (fd : ℕ) → Call
  dup_call : (fd : ℕ) → Call
  dup2_call : (fd other : ℕ) → Call

-- How many descriptors of the waiting tasks point at a file.
abbrev pub held : List Waiting → ℕ → ℕ
held [] p = 0
held (v ∷ vs) p = holders v.v_openvect p + held vs p

abbrev pub AllFit : List Waiting → Type 0
AllFit [] = Unit
AllFit (v ∷ vs) = IsTidy v.v_openvect × (length v.v_openvect ≡ task_max_open_files) × AllFit vs

-- The task that runs, and the others.
pub record Procs (D : Type 0) : Type 0 where
  pub running : Proc D
  pub waiting : List Waiting

module _ {D : Type 0} where
  abbrev pub as_waiting : Proc D → Waiting
  as_waiting w = record { v_openvect = w.table; cwd = w.v_cwd; user = w.who }

  abbrev pub as_running : Waiting → Store D → Proc D
  as_running v s = record { table = v.v_openvect; v_cwd = v.cwd; who = v.user; store = s }

  module _ (K : Kernel D) where
    abbrev pub run : Call → Proc D → Option (Result ℕ × Proc D)
    run (open_call name flags mode) w = some (sys_open K name flags mode w)
    run (close_call fd) w = sys_close fd w
    run (dup_call fd) w = sys_dup fd w
    run (dup2_call fd other) w = sys_dup2 fd other w

    -- One step. The drivers may change their state at any time; fork needs that there are fewer than
    -- 2 ^ 20 tasks, and the table of a task that ended is given up by another one.
    pub data Step : Procs D → Procs D → Type 0 where
      calls :
          (c : Call) (w w' : Proc D) (r : Result ℕ) (vs : List Waiting)
          → run c w ≡ some (r, w')
          → Step (record { running = w; waiting = vs }) (record { running = w'; waiting = vs })
      drives :
          (w : Proc D) (d : D) (vs : List Waiting)
          → Step
              (record { running = w; waiting = vs })
              (record {
                running = record w { store = record w.store { driver = d } };
                waiting = vs;
              })
      forks :
          (w : Proc D) (copy : List Descr) (s : Store D) (vs : List Waiting)
          → copy_task_vfs w ≡ some (copy, s)
          → length vs + 2 < 2 ^ 20
          → Step
              (record { running = w; waiting = vs })
              (record {
                running = record w { store = s };
                waiting = record { v_openvect = copy; cwd = w.v_cwd; user = w.who } ∷ vs;
              })
      reaps :
          (w : Proc D) (v : Waiting) (left : List Descr) (s : Store D) (vs : List Waiting)
          → free_task_vfs (as_running v w.store) ≡ some (left, s)
          → Step
              (record { running = w; waiting = v ∷ vs })
              (record { running = record w { store = s }; waiting = vs })
      switches :
          (w : Proc D) (v : Waiting) (before after : List Waiting)
          → Step
              (record { running = w; waiting = before ++ v ∷ after })
              (record {
                running = as_running v w.store;
                waiting = as_waiting w ∷ (before ++ after);
              })

    pub data Reach (start : Procs D) : Procs D → Type 0 where
      here : Reach start start
      next : {s s' : Procs D} → Reach start s → Step s s' → Reach start s'

  -- Each file has as many references as descriptors of all tasks point at it.
  pub record Steady (s : Procs D) : Type 0 where
    pub counted : Counted (λ p. held s.waiting p + holders s.running.table p) s.running.store
    pub tidy : IsTidy s.running.table
    pub full : length s.running.table ≡ task_max_open_files
    pub fits : AllFit s.waiting
    pub few : length s.waiting + 1 < 2 ^ 20
