-- ===== src/Pipe/Tests.antt =====
-- Small runs of kernel/src/pipe.c on a pipe of four slots.
use stewieos.Prelude.{[], ◌∷◌, ◌≡◌, refl, arith, true, none, some, ◌≢◌, map, inl}
use stewieos.Ring.{pending}
use stewieos.Pipe.{
  Pipe, OpenFlags, Reading, pipe_write, write_bytes, pipe_read, read_loop, drain, pipe_open,
  pipe_close,
}
use stewieos.Pipe.Transfer.{IsValid}
use stewieos.Pipe.Wait.{IsGot, pipe_read-Ends, pipe_read-stream}
use stewieos.Pipe.Open.{pipe_close-pipe_open}

-- 7 waits, and the next byte goes to the last slot
abbrev one_byte : Pipe
one_byte = record {
  buffer = 0 ∷ 0 ∷ 7 ∷ 0 ∷ [];
  len = 4;
  read = 2;
  write = 3;
  nreaders = 1;
  nwriters = 1;
  inode = 12;
  reader = some 3;
}

abbrev no_bytes : Pipe
no_bytes = record one_byte { read = 3 }

abbrev flags : OpenFlags
flags = record { o_rdonly = 0; o_wronly = 1; o_rdwr = 2 }

one_byte-IsValid : IsValid one_byte
one_byte-IsValid = record { read_in = omega arith; write_in = omega arith; storage = omega arith }

no_bytes-IsValid : IsValid no_bytes
no_bytes-IsValid = record { read_in = omega arith; write_in = omega arith; storage = omega arith }

write_wraps : (pipe_write true (8 ∷ 9 ∷ []) one_byte).1.buffer ≡ 9 ∷ 0 ∷ 7 ∷ 8 ∷ []
unfolding pipe_write write_bytes
write_wraps = refl

read_sleeps : IsGot (7 ∷ 8 ∷ 9 ∷ []) (pipe_read 5 (write_bytes (8 ∷ 9 ∷ []) ∷ []) 3 one_byte)
unfolding pipe_read read_loop drain write_bytes
read_sleeps = refl

pipe_read-Ends_example :
    pipe_read 5 (write_bytes (8 ∷ 9 ∷ []) ∷ []) 3 one_byte ≢ Reading.out_of_fuel
pipe_read-Ends_example = pipe_read-Ends 5 (write_bytes (8 ∷ 9 ∷ []) ∷ []) 3 one_byte

pipe_read-stream_example :
    IsGot (7 ∷ 8 ∷ 9 ∷ []) (pipe_read 5 (map write_bytes ((8 ∷ 9 ∷ []) ∷ [])) 3 one_byte)
unfolding pending
pipe_read-stream_example =
    pipe_read-stream 5 ((8 ∷ 9 ∷ []) ∷ []) 3 one_byte one_byte-IsValid (omega arith)
      (omega arith, tt) (omega arith) (omega arith)

pipe_close-pipe_open_example :
    let (r, ps') = pipe_open flags none 12 2 (one_byte ∷ []) in
    pipe_close flags 12 2 ps' ≡ one_byte ∷ []
pipe_close-pipe_open_example =
    pipe_close-pipe_open flags 12 2 none (one_byte ∷ [])
      ((omega arith, omega arith, omega arith), tt) (inl refl)
