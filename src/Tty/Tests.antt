-- ===== src/Tty/Tests.antt =====
-- Small runs of kernel/src/tty.c on a queue whose array holds 7 everywhere.
use stewieos.Prelude.{ℕ, ◌≡◌, refl, [], arith, true, false, some, replicate}
use stewieos.Tty.{Tty, Termios, translate, tty_queue_insert}
use stewieos.Tty.Queue.{IsValid, Placed, tty_queue_insert-Placed}

abbrev modes : Termios
modes = record {
  istrip = false;
  inlcr = false;
  icrnl = true;
  iuclc = true;
  icanon = true;
  echoe = true;
  echo = true;
  echonl = false;
  verase = 8;
  veol = 10;
}

abbrev at : (read write : ℕ) → Tty
at read write = record {
  read = read;
  write = write;
  queue = replicate 1024 7;
  termios = modes;
  task = some 2;
  echoed = [];
  woken = [];
}

straight-IsValid : IsValid (at 3 5)
straight-IsValid = record { read_in = omega arith; write_in = omega arith; storage = omega arith }

wrapped-IsValid : IsValid (at 1022 2)
wrapped-IsValid = record { read_in = omega arith; write_in = omega arith; storage = omega arith }

-- a carriage return becomes a new line, and a capital a small letter
translates : (translate modes 13 ≡ 10) × (translate modes 65 ≡ 97)
unfolding translate
translates = (refl, refl)

tty_queue_insert-Placed_example :
    Placed true (translate modes 13) (at 3 5) (tty_queue_insert true 13 (at 3 5))
tty_queue_insert-Placed_example = tty_queue_insert-Placed (at 3 5) straight-IsValid true 13
