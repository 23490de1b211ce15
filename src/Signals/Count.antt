-- ===== src/Signals/Count.antt =====
-- signal_check of kernel/src/signal.c: it ends, and takes a signal whenever one is raised.
use stewieos.Prelude.{
  ℕ, zero, suc, ◌+◌, ◌-◌, ◌≤◌, ◌<◌, ◌≡◌, ◌≢◌, ◌⊎◌, inl, inr, refl, Bool, true, false, List, [], ◌∷◌,
  Bool-cases, if◌then◌else◌, arith, none, some, length, set, ltb, get_or,
}
use stewieos.Signals.{
  Handler, SignalTask, raise_signal, lower_signal, find_raised, signal_save, signal_kill, Numbers,
  Check, Default, signal_default,
}

-- how many signals are raised
unfoldable pub count : List Bool → ℕ
count [] = 0
count (b ∷ bits) = (if b then 1 else 0) + count bits

-- `nraised` never misses a signal that is raised.
abbrev pub IsCounted : SignalTask → Type 0
IsCounted t = count t.raised ≤ t.nraised

count-raised : (l : List Bool) (k : ℕ) → count (set l k true) ≤ count l + 1
unfolding count
count-raised [] k = omega arith
count-raised (b ∷ l) zero = ground arith
count-raised (b ∷ l) (suc k) = ground (arith, count-raised l k)

-- signal_kill keeps the count.
pub signal_kill-IsCounted :
    (sig : ℕ) (t : SignalTask) → IsCounted t → IsCounted (signal_kill sig t).1
unfolding signal_kill raise_signal
signal_kill-IsCounted sig t c = elim (Bool-cases (ltb sig (length t.raised))) [
  | inl e ↦ rw e (omega (arith, count-raised t.raised sig))
  | inr e ↦ rw e c
]

-- A signal that is raised and has its default action.
abbrev pub HasDefault : SignalTask → ℕ → Type 0
HasDefault t sig = (get_or t.raised sig false ≡ true) × (t.handlers sig ≡ Handler.sig_dfl)

-- what signal_check does on every path
abbrev pub Checked : (numbers : Numbers) (stack : ℕ) (t : SignalTask) → Check → Type 0
Checked numbers stack t Check.deeper = ⊥
Checked numbers stack t (Check.killed sig t') =
    HasDefault t sig
    × ((signal_default numbers sig ≡ some Default.term)
        ⊎ (signal_default numbers sig ≡ some Default.core))
Checked numbers stack t (Check.calls_null sig t') =
    HasDefault t sig × (signal_default numbers sig ≡ none)
Checked numbers stack t (Check.stopped sig t') =
    HasDefault t sig
    × (signal_default numbers sig ≡ some Default.stop)
    × IsCounted t'
    × (count t'.raised < count t.raised)
Checked numbers stack t (Check.returned handled t') =
    IsCounted t'
    × (count t'.raised ≤ count t.raised)
    × (count t.raised ≢ 0 → count t'.raised < count t.raised)
    × (handled ≡ true
        → (sig f : ℕ) × (find_raised t.raised ≡ some sig)
          × (t.handlers sig ≡ Handler.function f)
          × (t'.context ≡ record { eflags = 2097664; eip = f; esp = stack - 8; ebp = 0 })
          × (t'.tf_signal ≡ true))

Handler-cases :
    (h : Handler)
    → (h ≡ Handler.sig_dfl) ⊎ (h ≡ Handler.sig_ign) ⊎ ((f : ℕ) × (h ≡ Handler.function f))
Handler-cases Handler.sig_dfl = inl refl
Handler-cases Handler.sig_ign = inr (inl refl)
Handler-cases (Handler.function f) = inr (inr (f, refl))

-- the signal found is lowered
module _ (numbers : Numbers) (stack : ℕ) (t : SignalTask) (sig : ℕ) (c : IsCounted t)
    (found : find_raised t.raised ≡ some sig) where
  abbrev lowered : SignalTask
  lowered = lower_signal sig (signal_save t)
