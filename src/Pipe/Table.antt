-- ===== src/Pipe/Table.antt =====
-- Kernel/pipe.c: the table of pipes.
use boke_os.Base.{
  ℕ, zero, suc, ◌+◌, ◌-◌, ◌^◌, Bool, true, false, Option, none, some, List, [], ◌∷◌, ◌==◌, leb,
  if◌then◌else◌, update,
}
use boke_os.Kernel.{Kernel, Allocator, process_at, release, shell_pid}
use boke_os.Scheduler.Search.{get_pcb_entry}
use boke_os.Semaphore.Spaces.{my_sem_open, my_sem_close, same_pid}
use boke_os.Pipe.Entry.{Pipe, buffer_size, max_pipes}

-- `pipe_array`, `max_pipe` and `first_eof`.
pub record Pipes : Type 0 where
  pub pipe_array : ℕ → Pipe
  pub max_pipe : ℕ
  pub first_eof : Bool

abbrev pub set_pipe : ℕ → Pipe → Pipes → Pipes
set_pipe i p t = record t { pipe_array = update t.pipe_array i p }

-- `init_pipes`: the names from `n` - 1 down. The source first gives the pipe 0 the name 0, and its
-- loop then takes that away.
unfoldable pub init_pipes : ℕ → Pipes → Pipes
init_pipes zero t = t
init_pipes (suc n) t = init_pipes n (set_pipe n (record (t.pipe_array n) { name = none }) t)

-- The loop of `create_pipe` from `i` on, with the rounds that are left; `none` is its return of -1.
-- It stops at the first free pipe other than the pipe 0.
unfoldable pub find_slot : (ℕ → Pipe) → Option ℕ → (rounds i found : ℕ) → Option ℕ
find_slot pipes name zero i found = some found
find_slot pipes name (suc r) i found =
    let n = (pipes i).name in
    let found' = if same_pid n none then i else found in
    let rest = find_slot pipes name r (i + 1) found' in
    if found == 0 then (if same_pid n name then none else rest) else some found

-- `get_pipe_id`, with the rounds that are left; `none` is -1.
unfoldable pub pipe_id_from : (ℕ → Pipe) → Option ℕ → (rounds i : ℕ) → Option ℕ
pipe_id_from pipes name zero i = none
pipe_id_from pipes name (suc r) i =
    let rest = pipe_id_from pipes name r (i + 1) in
    if same_pid (pipes i).name name then some i else rest

unfoldable pub get_pipe_id : Option ℕ → Pipes → Option ℕ
unfolding pipe_id_from
get_pipe_id name t = pipe_id_from t.pipe_array name max_pipes 0

abbrev pub pipe_read_id : List ℕ
pipe_read_id = b'p' ∷ b'i' ∷ b'p' ∷ b'e' ∷ b'_' ∷ b'r' ∷ b'e' ∷ b'a' ∷ b'd' ∷ []

abbrev pub pipe_write_id : List ℕ
pipe_write_id = b'p' ∷ b'i' ∷ b'p' ∷ b'e' ∷ b'_' ∷ b'w' ∷ b'r' ∷ b'i' ∷ b't' ∷ b'e' ∷ []

-- The cast of an index to `char *`, where -1 is the last address.
abbrev pub as_address : Option ℕ → ℕ
as_address none = 2 ^ 64 - 1
as_address (some i) = i

-- `eof_sent`
unfoldable pub eof_sent : ℕ → Pipes → Bool
eof_sent id t = (t.pipe_array id).eof

module _ (A : Allocator) where
  -- `create_pipe`: the id, `none` for -1.
  unfoldable pub create_pipe : ℕ → Pipes → Kernel A.Mem → Option ℕ × Pipes × Kernel A.Mem
  unfolding find_slot my_sem_open
  create_pipe name t k = elim (find_slot t.pipe_array (some name) max_pipes 0 0) [
    | none ↦ (none, t, k)
    | some i ↦
        let (read, k₁) = my_sem_open 0 pipe_read_id k in
        let (write, k₂) = my_sem_open buffer_size pipe_write_id k₁ in
        let (a, m) = A.malloc buffer_size k₂.mem in
        let p = record (t.pipe_array i) {
          name = some name;
          read_sem_id = as_address read;
          write_sem_id = as_address write;
          write_pos = 0;
          read_pos = 0;
          buffer_at = a;
          eof = false;
          left_to_read = 0;
        } in
        let t' = set_pipe i p t in
        (
          some i,
          record t' { max_pipe = if leb t'.max_pipe name then name + 1 else t'.max_pipe },
          record k₂ { mem = m },
        )
  ]

  -- `create_pipe_anonymous`
  unfoldable pub create_pipe_anonymous : Pipes → Kernel A.Mem → Option ℕ × Pipes × Kernel A.Mem
  unfolding create_pipe
  create_pipe_anonymous t k = create_pipe t.max_pipe t k

  -- `close_pipe`. `text_at` reads the string at an address.
  unfoldable pub close_pipe :
      (text_at : ℕ → List ℕ) → ℕ → Pipes → Kernel A.Mem → Pipes × Kernel A.Mem
  unfolding my_sem_close
  close_pipe text_at id t k =
      let p = t.pipe_array id in
      let k' = my_sem_close A (text_at p.write_sem_id) (my_sem_close A (text_at p.read_sem_id) k) in
      (
        set_pipe id (record p { name = none; read_pos = 0; write_pos = 0; eof = false }) t,
        release A p.buffer_at k',
      )

-- `send_eof_to_foreground`
unfoldable pub send_eof_to_foreground : {Mem : Type 0} → Kernel Mem → Pipes → Pipes
send_eof_to_foreground k t = elim (get_pcb_entry k k.foreground_pid) [
  | none ↦ t
  | some pcb ↦
      let p = process_at k pcb in
      if p.pid == shell_pid then t else set_pipe p.fr (record (t.pipe_array p.fr) { eof = true }) t
]
