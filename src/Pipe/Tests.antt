-- ===== src/Pipe/Tests.antt =====
-- The theorems on pipe.c at a pipe that holds two bytes. The addresses 0 and 1, which stand for its
-- semaphores, hold the text `x`, and no semaphore has that name.
use boke_os.Base.{ℕ, ◌≡◌, refl, true, false, some, List, [], ◌∷◌, ◌==◌, if◌then◌else◌, arith}
use boke_os.Kernel.Example.{bump, sample}
use boke_os.Pipe.Entry.{Pipe}
use boke_os.Pipe.Table.{Pipes}
use boke_os.Pipe.Transfer.{pipe_write, pipe_read}
use boke_os.Pipe.Fifo.{IsValid, held}
use boke_os.Pipe.Messages.{Sent, Received, pipe_write-Sent, pipe_read-Received}

abbrev two_bytes : Pipe
two_bytes = record {
  name = some 7;
  read_sem_id = 0;
  write_sem_id = 1;
  write_pos = 1;
  read_pos = 1023;
  buffer_at = 60;
  buffer = λ i. if i == 0 then b'b' else b'a';
  eof = false;
  left_to_read = 2;
}

abbrev table : Pipes
table = record { pipe_array = λ i. two_bytes; max_pipe = 8; first_eof = true }

abbrev text : ℕ → List ℕ
text a = b'x' ∷ []

held_two : held two_bytes ≡ b'a' ∷ b'b' ∷ []
held_two = refl

two_bytes-IsValid : IsValid two_bytes
two_bytes-IsValid = omega arith

pipe_write-Sent_example :
    let (w, rest, t', k') = pipe_write bump text 1 (b'c' ∷ b'd' ∷ []) table sample in
    Sent 1 (b'c' ∷ b'd' ∷ []) table w rest t'
pipe_write-Sent_example =
    pipe_write-Sent bump text 1 (b'c' ∷ b'd' ∷ []) table sample two_bytes-IsValid (omega arith) refl

pipe_read-Received_example :
    let (w, dest, left, t', k') = pipe_read bump text 1 2 table sample in
    Received 1 2 [] table w dest left t'
pipe_read-Received_example =
    pipe_read-Received bump text 1 2 table sample two_bytes-IsValid (omega arith) (omega arith)
