-- ===== src/Syscalls/Tests.antt =====
-- Two processes of a small kernel on the pipe 1, which holds two bytes before.
use boke_os.Base.{
  ℕ, ◌≤◌, ◌≡◌, refl, true, some, List, [], ◌∷◌, ◌++◌, ◌==◌, if◌then◌else◌, arith, false,
}
use boke_os.Kernel.{Kernel}
use boke_os.Kernel.Example.{Bump, bump, sample}
use boke_os.Scheduler.Search.{current_process_id}
use boke_os.Pipe.Entry.{Pipe}
use boke_os.Pipe.Transfer.{Transfer, finished, pipe_write, write_from}
use boke_os.Pipe.Fifo.{IsValid, held}
use boke_os.Pipe.Messages.{Received}
use boke_os.Syscalls.{Machine, piped, from_pipe, sys_write, sys_read}
use boke_os.Syscalls.Piped.{sys_read-sys_write}

abbrev piped_kernel : Kernel Bump
piped_kernel = record sample { procs = λ a. record (sample.procs a) { fr = 1; fw = 1 } }

abbrev two_bytes : Pipe
two_bytes = record {
  name = some 7;
  read_sem_id = 0;
  write_sem_id = 1;
  write_pos = 1;
  read_pos = 1023;
  buffer_at = 60;
  buffer = λ i. if i == 0 then b'b' else b'a';
  eof = false;
  left_to_read = 2;
}

abbrev text : ℕ → List ℕ
text a = b'x' ∷ []

abbrev font : ℕ → ℕ
font i = 255

abbrev message : List ℕ
message = b'c' ∷ b'd' ∷ []

abbrev writer : Machine Bump
writer = record {
  kernel = piped_kernel;
  pipes = record { pipe_array = λ i. two_bytes; max_pipe = 8; first_eof = true };
  screen = record {
    memory = λ a. 0;
    framebuffer = 0xFD000000;
    pitch = 3072;
    width = 1024;
    height = 768;
    bg_color = 0;
    cursor_x = 0;
    cursor_y = 0;
    size = 2;
  };
}

abbrev reader : Machine Bump
reader = record writer {
  kernel = record piped_kernel { foreground_pid = 4 };
  pipes = (sys_write bump text font message 1 writer).1.pipes;
}

valid : IsValid two_bytes
valid = omega arith

written : (sys_write bump text font message 1 writer).0 ≡ piped (finished true) []
unfolding sys_write pipe_write write_from
written = refl

cur : current_process_id reader.kernel ≡ some 4
unfolding current_process_id
cur = refl

held_3 : 3 ≤ (reader.pipes.pipe_array 1).left_to_read
unfolding sys_write pipe_write write_from
held_3 = omega arith

sys_read-sys_write_example :
    (w : Transfer) × (got : List ℕ) × (left : ℕ) × ((sys_read bump text font 3 0 reader).0
      ≡ from_pipe w got left)
    × (held two_bytes ++ message
        ≡ got ++ held ((sys_read bump text font 3 0 reader).1.pipes.pipe_array 1))
    × Received 1 3 [] reader.pipes w got left (sys_read bump text font 3 0 reader).1.pipes
sys_read-sys_write_example =
    sys_read-sys_write bump text font message 1 0 3 1 4 writer reader (omega arith) refl valid
      (omega arith) refl written refl cur refl refl (omega arith) held_3
