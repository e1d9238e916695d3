-- ===== src/Pipe/Entry.antt =====
-- Kernel/pipe.c: one pipe, and what a round of `pipe_write` and of `pipe_read` does to it.
use boke_os.Base.{ℕ, ◌+◌, ◌-◌, Bool, Option, ◌==◌, if◌then◌else◌, update}

-- `PIPE_BUFFER_SIZE`, `MAX_PIPES` and `_EOF_`
abbrev pub buffer_size : ℕ
buffer_size = 1024

abbrev pub max_pipes : ℕ
max_pipes = 10

abbrev pub eof_char : ℕ
eof_char = 1

-- `pipe`. A name -1 is `none`. The two semaphore ids are addresses, to which the source casts the
-- indices that `my_sem_open` gives. `buffer_at` is `pipe_buffer`, and `buffer` what it points to.
pub record Pipe : Type 0 where
  pub name : Option ℕ
  pub read_sem_id : ℕ
  pub write_sem_id : ℕ
  pub write_pos : ℕ
  pub read_pos : ℕ
  pub buffer_at : ℕ
  pub buffer : ℕ → ℕ
  pub eof : Bool
  pub left_to_read : ℕ

-- A position at the end of the buffer goes back to its start.
abbrev pub wrapped : ℕ → ℕ
wrapped pos = if pos == buffer_size then 0 else pos

-- `pipe_buffer[write_pos++] = c; left_to_read++;`, behind the test of `write_pos`.
unfoldable pub put : ℕ → Pipe → Pipe
put c p =
    let pos = wrapped p.write_pos in
    record p {
      buffer = update p.buffer pos c;
      write_pos = pos + 1;
      left_to_read = p.left_to_read + 1;
    }

-- The byte at `read_pos++`, behind the test of `read_pos`, and `left_to_read--`, which stops at 0
-- here: the source's `int` does not.
unfoldable pub get : Pipe → ℕ × Pipe
get p =
    let pos = wrapped p.read_pos in
    (p.buffer pos, record p { read_pos = pos + 1; left_to_read = p.left_to_read - 1 })
