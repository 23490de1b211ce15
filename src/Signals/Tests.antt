-- ===== src/Signals/Tests.antt =====
-- Instances of the theorems about the signals of kernel/src/signal.c.
use stewieos.Prelude.{
  List, Bool, replicate, ◌++◌, ◌≡◌, refl, true, false, [], ◌∷◌, ◌==◌, if◌then◌else◌, arith, set,
}
use stewieos.Signals.{
  Numbers, Check, signal_default, Handler, SignalTask, Context, find_raised, signal_check,
  signal_return,
}
use stewieos.Signals.Return.{signal_return-signal_check, signal_return-skips}

abbrev numbers : Numbers
numbers = record {
  sighup = 1;
  sigint = 2;
  sigquit = 3;
  sigill = 4;
  sigabrt = 6;
  sigfpe = 8;
  sigkill = 9;
  sigpipe = 13;
  sigalrm = 14;
  sigterm = 15;
  sigusr1 = 30;
  sigusr2 = 31;
  sigchld = 20;
  sigcont = 19;
  sigstop = 17;
}

abbrev at_work : Context
at_work = record { eflags = 512; eip = 4096; esp = 8192; ebp = 8200 }

-- Signal 1 is raised, with a handler at 5000.
abbrev signalled : SignalTask
signalled = record {
  raised = false ∷ true ∷ false ∷ [];
  nraised = 1;
  handlers = λ s. if s == 0 then Handler.sig_dfl else Handler.function 5000;
  saved = at_work;
  context = at_work;
  tf_signal = false;
  defaults = [];
}

signal_return-signal_check_example :
    (t1 t2 : SignalTask) × (signal_check numbers 1 9000 signalled ≡ Check.returned true t1)
    × (signal_return numbers 1 9000
          (record t1 { context = record { eflags = 0; eip = 5004; esp = 8992; ebp = 1 } })
        ≡ Check.returned false t2)
    × (t2.context ≡ at_work)
    × (t2.tf_signal ≡ false)
signal_return-signal_check_example =
    signal_return-signal_check numbers 0 0 9000 1 5000 signalled
      (record { eflags = 0; eip = 5004; esp = 8992; ebp = 1 }) refl (λ e. ground (arith, e))
      (unfold find_raised in refl) refl (unfold find_raised in refl)

-- In a handler, signals 20 and 21 are raised, and 20 has its default action.
abbrev both : List Bool
both = replicate 20 false ++ true ∷ true ∷ replicate 10 false

abbrev in_handler : SignalTask
in_handler = record signalled {
  raised = both;
  nraised = 2;
  handlers = λ s. if s == 20 then Handler.sig_dfl else Handler.function 5000;
  tf_signal = true;
}

signal_return-skips_example :
    (t : SignalTask) × (signal_return numbers 2 9000 in_handler ≡ Check.returned false t)
    × (t.raised ≡ set (set both 20 false) 21 false)
    × (t.context ≡ at_work)
    × (t.tf_signal ≡ false)
signal_return-skips_example =
    signal_return-skips numbers 0 9000 20 21 5000 in_handler refl (omega arith)
      (unfold find_raised in refl) refl (unfold signal_default in refl) (unfold find_raised in refl)
      refl
