-- ===== src/Signals/Return.antt =====
-- signal_return of kernel/src/signal.c after a handler has run.
use stewieos.Prelude.{
  ℕ, suc, ◌-◌, ◌<◌, ◌≡◌, ◌≢◌, refl, Bool, true, false, ◌∷◌, ◌==◌, Bool-cases, arith, none, some,
  set, inl, ◌∙◌, inr, ap,
}
use stewieos.Signals.{
  Handler, SignalTask, Context, lower_signal, find_raised, signal_save, enter_handler,
  deliver_signal, check_found, signal_check, signal_return, restore, not_handled, Numbers, Check,
  Default, signal_default, run_default, after_check,
}

-- the task when signal `a` has been taken for its default action
abbrev defaulted : ℕ → SignalTask → SignalTask
defaulted a t = let u = lower_signal a (signal_save t) in record u { defaults = a ∷ u.defaults }

module _ (numbers : Numbers) where
  -- A check of a task whose lowest raised signal is `sig`, with a handler of the program.
  check-function :
      (d stack sig f : ℕ) (t : SignalTask)
      → t.nraised ≢ 0
      → find_raised t.raised ≡ some sig
      → t.handlers sig ≡ Handler.function f
      → signal_check numbers (suc d) stack t
        ≡ Check.returned true (enter_handler stack f (lower_signal sig (signal_save t)))
  unfolding signal_check deliver_signal check_found
  check-function d stack sig f t n found h =
      let e : (t.nraised == 0) ≡ false = ground arith in
      rw e (rw (check_found, found) (rw (deliver_signal, h) refl))

  -- A check of a task with no signal raised.
  check-none :
      (n stack : ℕ) (u : SignalTask)
      → find_raised u.raised ≡ none
      → (v : SignalTask) × (signal_check numbers (suc n) stack u ≡ Check.returned false v)
        × (v.saved ≡ u.saved)
  unfolding signal_check check_found
  check-none n stack u e = elim (Bool-cases (u.nraised == 0)) [
    | inl z ↦ (u, rw z refl, refl)
    | inr z ↦ (record u { nraised = 0 }, rw (z, e) refl, refl)
  ]

  -- What signal_return does where no further handler is entered.
  return-restores :
      (n stack : ℕ) (u v : SignalTask)
      → u.tf_signal ≡ true
      → signal_check numbers n stack u ≡ Check.returned false v
      → signal_return numbers n stack u ≡ Check.returned false (restore v)
  unfolding signal_return after_check
  return-restores n stack u v on e = simp on (rw e refl)

  -- A task that no handler interrupts, with a raised signal that has one, runs the handler; when the
  -- handler returns, whatever it has done to the registers, and no further signal has been raised, the
  -- task has the registers that it had before, and TF_SIGNAL is clear again. `nraised` is not 0.
  pub signal_return-signal_check :
      (d n stack sig f : ℕ) (t : SignalTask) (c : Context)
      → t.tf_signal ≡ false
      → t.nraised ≢ 0
      → find_raised t.raised ≡ some sig
      → t.handlers sig ≡ Handler.function f
      → find_raised (set t.raised sig false) ≡ none
      → (t1 t2 : SignalTask) × (signal_check numbers (suc d) stack t ≡ Check.returned true t1)
        × (signal_return numbers (suc n) stack (record t1 { context = c })
            ≡ Check.returned false t2)
        × (t2.context ≡ t.context)
        × (t2.tf_signal ≡ false)
  signal_return-signal_check d n stack sig f t c off n0 found h last =
      let t0 = lower_signal sig (signal_save t) in
      let t1 = enter_handler stack f t0 in
      let u : SignalTask = record t1 { context = c } in
      let kept : (u.raised ≡ set t.raised sig false) × (u.saved ≡ t.context) =
        unfold signal_save lower_signal enter_handler in simp off (refl, refl) in
      let (v, e, s) = check-none n stack u (rw kept.0 last) in
      (
        t1,
        restore v,
        check-function d stack sig f t n0 found h,
        return-restores (suc n) stack u v (unfold enter_handler in refl) e,
        unfold restore in (s ∙ kept.1),
        unfold restore in refl,
      )

  check_found-default :
      (stack a : ℕ) (again : SignalTask → Check) (t v : SignalTask) (b : Bool)
      → t.handlers a ≡ Handler.sig_dfl
      → signal_default numbers a ≡ some Default.ignore
      → again (defaulted a t) ≡ Check.returned b v
      → check_found numbers stack again (some a) t ≡ Check.returned false v
  unfolding check_found deliver_signal run_default not_handled
  check_found-default stack a again t v b h g e = rw (h, g) (ap not_handled e)

  -- A check whose lowest raised signal is ignored by default returns 0, whatever the next check does.
  check-default :
      (d stack a : ℕ) (t v : SignalTask)
      → t.nraised ≢ 0
      → find_raised t.raised ≡ some a
      → t.handlers a ≡ Handler.sig_dfl
      → signal_default numbers a ≡ some Default.ignore
      → signal_check numbers d stack (defaulted a t) ≡ Check.returned true v
      → signal_check numbers (suc d) stack t ≡ Check.returned false v
  unfolding signal_check
  check-default d stack a t v n fa ha ga next =
      let z : (t.nraised == 0) ≡ false = ground arith in
      rw (z, fa)
        (check_found-default stack a (λ (x : SignalTask). signal_check numbers d stack x) t v true
          ha ga next)

  -- While a handler runs, let the lowest raised signal have its default action, which ignores it, and the
  -- next one a handler of the program. Then signal_return takes both signals, and restores the registers from before the
  -- first handler: the second handler never runs. `nraised` counts both.
  pub signal_return-skips :
      (n stack a b f : ℕ) (t : SignalTask)
      → t.tf_signal ≡ true
      → 1 < t.nraised
      → find_raised t.raised ≡ some a
      → t.handlers a ≡ Handler.sig_dfl
      → signal_default numbers a ≡ some Default.ignore
      → find_raised (set t.raised a false) ≡ some b
      → t.handlers b ≡ Handler.function f
      → (t' : SignalTask) × (signal_return numbers (suc (suc n)) stack t ≡ Check.returned false t')
        × (t'.raised ≡ set (set t.raised a false) b false)
        × (t'.context ≡ t.saved)
        × (t'.tf_signal ≡ false)
  signal_return-skips n stack a b f t on more fa ha ga fb hb =
      let u = defaulted a t in
      let v = enter_handler stack f (lower_signal b (signal_save u)) in
      let same : (u.raised ≡ set t.raised a false)
          × (u.nraised ≡ t.nraised - 1)
          × (u.handlers ≡ t.handlers) =
        unfold lower_signal signal_save in simp on (refl, refl, refl) in
      let second =
        check-function n stack b f u (rw same.1 (omega arith)) (rw same.0 fb)
          (ap (λ (g : ℕ → Handler). g b) same.2 ∙ hb) in
      let first = check-default (suc n) stack a t v (omega arith) fa ha ga second in
      (
        restore v,
        return-restores (suc (suc n)) stack t v on first,
        unfold restore enter_handler lower_signal signal_save in simp on refl,
        unfold restore enter_handler lower_signal signal_save in simp on refl,
        unfold restore in refl,
      )
