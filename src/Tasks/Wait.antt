-- ===== src/Tasks/Wait.antt =====
-- sys_waitpid of kernel/src/task.c with the exit of the child that it waits for.
use stewieos.Prelude.{
  ℕ, suc, ◌≡◌, refl, Bool, true, false, not, ◌&&◌, List, [], ◌∷◌, ◌==◌, Bool-cases, if◌then◌else◌,
  arith, Option, none, some, Errno, inl, ◌∙◌, ◌⊎◌, ap, inr, ==_iff,
}
use stewieos.Tasks.{
  ℤ, TaskData, Sched, write_task, queued, unlink, lookup_in, task_by_pid, orphan, Waited,
  sys_waitpid, reap, remove_task, unlink_child, take_dead, wait_child, waitpid_by, same_parent,
}

-- The lookup reads nothing of the tasks but their numbers.
pub lookup_in-same :
    (f g : ℕ → TaskData) (pid : ℕ) (l : List ℕ)
    → ((x : ℕ) → (f x).t_pid ≡ (g x).t_pid)
    → lookup_in f pid l ≡ lookup_in g pid l
unfolding lookup_in
lookup_in-same f g pid [] s = refl
lookup_in-same f g pid (t ∷ l) s = rw (s t, lookup_in-same f g pid l s) refl

pub write_task-t_pid :
    (t : ℕ) (d : TaskData) (f : ℕ → TaskData) (x : ℕ)
    → d.t_pid ≡ (f t).t_pid
    → (write_task t d f x).t_pid ≡ (f x).t_pid
write_task-t_pid t d f x s = elim (Bool-cases (t == x)) [
  | inl e ↦ rw e (s ∙ ap (λ y. (f y).t_pid) ((==_iff t x).0 e))
  | inr e ↦ rw e refl
]

pub orphan-t_pid : (cs : List ℕ) (f : ℕ → TaskData) (x : ℕ) → (orphan cs f x).t_pid ≡ (f x).t_pid
unfolding orphan
orphan-t_pid [] f x = refl
orphan-t_pid (c ∷ cs) f x =
    orphan-t_pid cs (write_task c (record (f c) { t_parent = none }) f) x
    ∙ write_task-t_pid c (record (f c) { t_parent = none }) f x refl

pub orphan-other :
    (cs : List ℕ) (f : ℕ → TaskData) (x : ℕ) → queued x cs ≡ false → orphan cs f x ≡ f x
unfolding orphan queued
orphan-other [] f x n = refl
orphan-other (c ∷ cs) f x n =
    let e : (c == x) ≡ false = ground arith in
    orphan-other cs (write_task c (record (f c) { t_parent = none }) f) x (ground arith) ∙ rw e refl

-- A lookup in a list that lacks the only task of that number.
pub lookup_in-unlink :
    (f : ℕ → TaskData) (pid t : ℕ) (l : List ℕ)
    → ((y : ℕ) → queued y l ≡ true → (f y).t_pid ≡ pid → y ≡ t)
    → lookup_in f pid (unlink t l) ≡ none
unfolding lookup_in unlink queued
lookup_in-unlink f pid t [] u = refl
lookup_in-unlink f pid t (a ∷ l) u =
    let ih = lookup_in-unlink f pid t l (λ y i e. u y (ground arith) e) in
    elim (Bool-cases (a == t)) [
      | inl e ↦ rw e ih
      | inr e ↦
          let n : ((f a).t_pid == pid) ≡ false = elim (Bool-cases ((f a).t_pid == pid)) [
            | inl g ↦ let k = u a (ground arith) ((==_iff _ _).0 g) in ground arith
            | inr g ↦ g
          ] in
          rw e (rw n ih)
    ]

pub same_parent_self : (p : ℕ) → same_parent (some p) p ≡ true
unfolding same_parent
same_parent_self p = ground arith

-- the task that sys_waitpid reaps leaves the list of all tasks, and the tasks keep their numbers
remove_task-lookup :
    (w : Sched) (t p pid : ℕ)
    → (w.tasks t).t_parent ≡ some p
    → ((y : ℕ) → queued y w.globlist ≡ true → (w.tasks y).t_pid ≡ pid → y ≡ t)
    → task_by_pid pid (remove_task t w) ≡ none
unfolding remove_task unlink_child
remove_task-lookup w t p pid e u = rw e (
    lookup_in-same _ w.tasks pid (unlink t w.globlist) (λ x.
      write_task-t_pid p (record (w.tasks p) { t_children = unlink t (w.tasks p).t_children })
        w.tasks x refl)
    ∙ lookup_in-unlink w.tasks pid t w.globlist u)

pub reap-found :
    (w : Sched) (pid c : ℕ) (status : Option ℕ)
    → task_by_pid pid w ≡ some c
    → reap (ℤ.pos pid) status w ≡ Waited.returned (ℤ.pos pid) status (remove_task c w)
unfolding reap
reap-found w pid c status e = rw (reap, e) refl

take_dead-zombie :
    (w : Sched) (n c : ℕ) (wants nohang : Bool)
    → task_by_pid (suc n) w ≡ some c
    → (w.tasks c).t_pid ≡ suc n
    → take_dead (some c) (ℤ.pos (suc n)) wants nohang w
      ≡ Waited.returned
          (ℤ.pos (suc n))
          (if wants then some (w.tasks c).t_status else none)
          (remove_task c w)
unfolding take_dead
take_dead-zombie w n c wants nohang e num =
    ap (λ k. reap (ℤ.pos k) (if wants then some (w.tasks c).t_status else none) w) num
    ∙ reap-found w (suc n) c (if wants then some (w.tasks c).t_status else none) e

-- sys_waitpid for a child that is dead already returns the child's number and status and reaps it: a
-- second call for the same number fails with -ECHILD. No two tasks have that number.
pub sys_waitpid-once :
    (w : Sched) (n c options : ℕ) (wants : Bool)
    → (options ≡ 0) ⊎ (options ≡ 1)
    → task_by_pid (suc n) w ≡ some c
    → (w.tasks c).t_parent ≡ some w.current
    → (w.tasks c).t_flags.zombie ≡ true
    → (w.tasks c).t_pid ≡ suc n
    → ((y : ℕ) → queued y w.globlist ≡ true → (w.tasks y).t_pid ≡ suc n → y ≡ c)
    → (w' : Sched) × (sys_waitpid (ℤ.pos (suc n)) wants options w
        ≡ Waited.returned (ℤ.pos (suc n)) (if wants then some (w.tasks c).t_status else none) w')
      × (sys_waitpid (ℤ.pos (suc n)) wants options w' ≡ Waited.failed Errno.echild w')
sys_waitpid-once w n c options wants o found parent dead num u =
    let w' = remove_task c w in
    let t : (not (options == 0) && not (options == 1)) ≡ false = ground arith in
    let sp : same_parent (w.tasks c).t_parent w.current ≡ true =
      ap (λ z. same_parent z w.current) parent ∙ same_parent_self w.current in
    (
      w',
      unfold sys_waitpid waitpid_by wait_child in
          rw (t, found) (rw sp (simp dead (take_dead-zombie w n c wants (options == 1) found num))),
      unfold sys_waitpid waitpid_by wait_child in
          rw (t, remove_task-lookup w c w.current (suc n) parent u) refl,
    )
