-- ===== src/Signals.antt =====
-- Signals of kernel/src/signal.c and kernel/include/stewieos/ksignal.h. `raised` is the bitmap, one
-- Boolean for each of the NSIG signals. A default action is logged, and ends the check where it kills
-- or stops the task; what else it does to the task is not modelled, nor are the floating point state and the words that go onto the handler's stack.
pub mod Count
pub mod Return
mod Tests
use stewieos.Prelude.{
  ℕ, zero, suc, ◌+◌, ◌-◌, Bool, true, false, not, ◌&&◌, ◌||◌, Option, none, some, List, [], ◌∷◌,
  ltb, ◌==◌, if◌then◌else◌, length, set, Errno, Result, ok, err, replicate,
}

-- `sighandler_t`: SIG_DFL, SIG_IGN or a function of the program
pub data Handler : Type 0 where
  sig_dfl : Handler
  sig_ign : Handler
  function : ℕ → Handler

-- the registers that a signal saves and restores
pub record Context : Type 0 where
  pub eflags : ℕ
  pub eip : ℕ
  pub esp : ℕ
  pub ebp : ℕ

-- `signal_state_t`, with the fields of the task that signals touch: its registers and TF_SIGNAL
pub record SignalTask : Type 0 where
  pub raised : List Bool
  pub nraised : ℕ
  pub handlers : ℕ → Handler
  pub saved : Context
  pub context : Context
  pub tf_signal : Bool
  pub defaults : List ℕ

-- RAISE_SIGNAL and LOWER_SIGNAL
unfoldable pub raise_signal : ℕ → SignalTask → SignalTask
raise_signal sig t = record t { raised = set t.raised sig true; nraised = t.nraised + 1 }

unfoldable pub lower_signal : ℕ → SignalTask → SignalTask
lower_signal sig t = record t { raised = set t.raised sig false; nraised = t.nraised - 1 }

-- the loop of signal_check: the lowest signal that is raised
unfoldable pub find_raised : List Bool → Option ℕ
find_raised [] = none
find_raised (true ∷ bits) = some 0
find_raised (false ∷ bits) = elim (find_raised bits) [ none ↦ none | some n ↦ some (suc n) ]

unfoldable pub signal_save : SignalTask → SignalTask
signal_save t = if t.tf_signal then t else record t { saved = t.context }

-- The task goes on in a handler; `stack` is TASK_SIGNAL_STACK.
unfoldable pub enter_handler : (stack handler : ℕ) → SignalTask → SignalTask
enter_handler stack handler t = record t {
  context = record { eflags = 2097664; eip = handler; esp = stack - 8; ebp = 0 };
  tf_signal = true;
}

-- the default actions, by the endings of the functions' names
pub data Default : Type 0 where
  term core cont stop ignore : Default

-- the numbers of <signal.h> that have an entry in the table `signal_default`
pub record Numbers : Type 0 where
  pub sighup : ℕ
  pub sigint : ℕ
  pub sigquit : ℕ
  pub sigill : ℕ
  pub sigabrt : ℕ
  pub sigfpe : ℕ
  pub sigkill : ℕ
  pub sigpipe : ℕ
  pub sigalrm : ℕ
  pub sigterm : ℕ
  pub sigusr1 : ℕ
  pub sigusr2 : ℕ
  pub sigchld : ℕ
  pub sigcont : ℕ
  pub sigstop : ℕ

-- the table; an entry that is missing is NULL, here `none`
unfoldable pub signal_default : Numbers → ℕ → Option Default
signal_default n sig =
    if sig == n.sighup
      || sig == n.sigint
      || sig == n.sigkill
      || sig == n.sigpipe
      || sig == n.sigalrm
      || sig == n.sigterm
      || sig == n.sigusr1
      || sig == n.sigusr2
    then some Default.term
    else if sig == n.sigquit || sig == n.sigill || sig == n.sigabrt || sig == n.sigfpe
    then some Default.core
    else if sig == n.sigchld
    then some Default.ignore
    else if sig == n.sigcont
    then some Default.cont
    else if sig == n.sigstop
    then some Default.stop
    else none

-- How a check of the running task ends: it returns, or the default action of a signal kills the task,
-- which task_kill does not return from, or a NULL entry is called, or the task sleeps in task_wait until
-- others wake it, or the check is deeper than allowed.
pub data Check : Type 0 where
  returned : Bool → SignalTask → Check
  killed : (sig : ℕ) → SignalTask → Check
  calls_null : (sig : ℕ) → SignalTask → Check
  stopped : (sig : ℕ) → SignalTask → Check
  deeper : Check

-- what the check of the next signal returns is not passed on
unfoldable pub not_handled : Check → Check
not_handled (Check.returned b t) = Check.returned false t
not_handled (Check.killed sig t) = Check.killed sig t
not_handled (Check.calls_null sig t) = Check.calls_null sig t
not_handled (Check.stopped sig t) = Check.stopped sig t
not_handled Check.deeper = Check.deeper

-- The default action of a signal, and the check that follows it. task_kill leaves TF_EXIT as the only
-- flag. What happens to a stopped task from its sleep on is not followed here.
unfoldable pub run_default :
    (again : SignalTask → Check) (sig : ℕ) → Option Default → SignalTask → Check
run_default again sig none t = Check.calls_null sig t
run_default again sig (some Default.term) t = Check.killed sig (record t { tf_signal = false })
run_default again sig (some Default.core) t = Check.killed sig (record t { tf_signal = false })
run_default again sig (some Default.cont) t = not_handled (again t)
run_default again sig (some Default.stop) t = Check.stopped sig t
run_default again sig (some Default.ignore) t = not_handled (again t)

-- signal_check once it has found a signal; `again` is its call of itself.
unfoldable pub deliver_signal :
    (numbers : Numbers) (stack : ℕ) (again : SignalTask → Check) (sig : ℕ)
    → Handler
    → SignalTask
    → Check
unfolding run_default
deliver_signal numbers stack again sig Handler.sig_dfl t =
    run_default again sig (signal_default numbers sig) (record t { defaults = sig ∷ t.defaults })
deliver_signal numbers stack again sig Handler.sig_ign t = Check.returned false t
deliver_signal numbers stack again sig (Handler.function f) t =
    Check.returned true (enter_handler stack f t)

unfoldable pub check_found :
    (numbers : Numbers) (stack : ℕ) (again : SignalTask → Check) → Option ℕ → SignalTask → Check
check_found numbers stack again none t = Check.returned false (record t { nraised = 0 })
check_found numbers stack again (some sig) t =
    deliver_signal numbers stack again sig (t.handlers sig) (lower_signal sig (signal_save t))

-- signal_check of the running task calls itself at most `depth` times. The Boolean is what it returns.
unfoldable pub signal_check : (numbers : Numbers) (depth stack : ℕ) → SignalTask → Check
signal_check numbers zero stack t = Check.deeper
signal_check numbers (suc depth) stack t =
    let again = λ (u : SignalTask). signal_check numbers depth stack u in
    if t.nraised == 0
    then Check.returned false t
    else check_found numbers stack again (find_raised t.raised) t

-- the end of signal_return
unfoldable pub restore : SignalTask → SignalTask
restore t = record t { context = t.saved; tf_signal = false }

unfoldable pub after_check : Check → Check
after_check (Check.returned true t) = Check.returned true t
after_check (Check.returned false t) = Check.returned false (restore t)
after_check (Check.killed sig t) = Check.killed sig t
after_check (Check.calls_null sig t) = Check.calls_null sig t
after_check (Check.stopped sig t) = Check.stopped sig t
after_check Check.deeper = Check.deeper

-- signal_return ends as its check does; the Boolean is whether a further handler has been entered.
unfoldable pub signal_return : (numbers : Numbers) (depth stack : ℕ) → SignalTask → Check
unfolding after_check
signal_return numbers depth stack t =
    if not t.tf_signal
    then Check.returned false t
    else after_check (signal_check numbers depth stack t)

-- signal_kill; a task that signals itself then gives the processor away. A signal is unsigned here,
-- so the test for a negative one is gone.
unfoldable pub signal_kill : (sig : ℕ) → SignalTask → Result (Unit {0}) × SignalTask
signal_kill sig t =
    if ltb sig (length t.raised) then (ok tt, raise_signal sig t) else (err Errno.einval, t)

-- signal_signal; `sigkill` and `sigstop` are the numbers of the two that have no handler.
unfoldable pub signal_signal :
    (sigkill sigstop sig : ℕ) → Handler → SignalTask → Result Handler × SignalTask
signal_signal sigkill sigstop sig h t =
    let hs = λ (s : ℕ). if sig == s then h else t.handlers s in
    if not (ltb sig (length t.raised)) || sig == sigkill || sig == sigstop
    then (err Errno.einval, t)
    else (ok (t.handlers sig), record t { handlers = hs })

unfoldable pub signal_init : (nsig : ℕ) → SignalTask → SignalTask
signal_init nsig t = record t {
  raised = replicate nsig false;
  nraised = 0;
  handlers = λ s. Handler.sig_dfl;
}

-- signal_copy copies the new task's own signals onto themselves.
unfoldable pub signal_copy : (dst src : SignalTask) → SignalTask
signal_copy dst src = dst
