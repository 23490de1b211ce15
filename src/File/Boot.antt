-- ===== src/File/Boot.antt =====
-- The first task of init_task_vfs (kernel/src/fs.c), with the invariant of all descriptors.
use stewieos.Prelude.{ℕ, zero, suc, [], length, replicate, arith, ◌≡◌, refl, sym, ◌∙◌}
use stewieos.Access.{Who}
use stewieos.File.{Descr, no_descr, task_max_open_files, init_task_vfs}
use stewieos.File.Holders.{holders, IsTidy}
use stewieos.File.Reach.{Procs, Steady}

length-replicate : (n : ℕ) (d : Descr) → length (replicate n d) ≡ n
length-replicate zero d = refl
length-replicate (suc n) d = omega (arith, length-replicate n d)

holders-no_descr : (n p : ℕ) → holders (replicate n no_descr) p ≡ 0
holders-no_descr zero p = refl
holders-no_descr (suc n) p = omega (arith, holders-no_descr n p)

no_descr-IsTidy : (n : ℕ) → IsTidy (replicate n no_descr)
no_descr-IsTidy zero i = refl
no_descr-IsTidy (suc n) zero = refl
no_descr-IsTidy (suc n) (suc i) = no_descr-IsTidy n i

module _ {D : Type 0} where
  -- A first task without descriptors, and no files.
  unfoldable pub boot : (root : ℕ) → Who → (ℕ → ℕ) → D → Procs D
  unfolding init_task_vfs
  boot root who refs d = record {
    running =
        init_task_vfs task_max_open_files root who
          (record { files = []; path_refs = refs; driver = d });
    waiting = [];
  }

  pub boot-Steady : (root : ℕ) (who : Who) (refs : ℕ → ℕ) (d : D) → Steady (boot root who refs d)
  unfolding boot init_task_vfs
  boot-Steady root who refs d = record {
    counted = record {
      count = λ p. sym (holders-no_descr task_max_open_files p ∙ omega arith);
      sound = λ p. tt;
    };
    tidy = no_descr-IsTidy task_max_open_files;
    full = length-replicate task_max_open_files no_descr;
    fits = tt;
    few = omega arith;
  }
