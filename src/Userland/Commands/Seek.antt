-- ===== src/Userland/Commands/Seek.antt =====
-- `__seek_command__`: the line is scanned, and the commands of its first and second word are looked
-- up and called.
use mathlib.Core.Option
use boke_os.Base.{
  ℕ, zero, suc, ◌++◌, ◌+◌, Bool, true, Option, none, some, List, [], ◌∷◌, get_or, ◌==◌,
  if◌then◌else◌,
}
use boke_os.Base.Run.{Run, ok, ◌>>=◌}
use boke_os.Userland.Commands.Table.{command_list, command_args, find_from}
use boke_os.Userland.Commands.Words.{Scan, scan, row_string}
use boke_os.Userland.Commands.Call.{Invocation}

-- The scan starts with the rows as `user_malloc` left them.
abbrev pub at_first : (ℕ → ℕ → ℕ) → Scan
at_first args = record { args = args; w = 0; j = 0; end_first_com = 0; is_fg1 = true }

-- `argv[0]` up to `argv[arg_count - 1]`: the rows behind the row `w`.
abbrev pub argv_of : (ℕ → ℕ → ℕ) → ℕ → ℕ → List (List ℕ)
argv_of args w zero = []
argv_of args w (suc n) = row_string (args (w + 1)) ∷ argv_of args (w + 1) n

-- The command of the row `w` as it is called, when a name of the table is there.
unfoldable pub invocation : (ℕ → ℕ → ℕ) → ℕ → Bool → ℕ × ℕ → Option Invocation
invocation args w is_fg fd =
    Option.map
      (λ (i : ℕ). record {
        index = i;
        command = row_string (args w);
        is_fg = is_fg;
        argv = argv_of args w (get_or command_args i 0);
        fd = fd;
      })
      (find_from command_list 0 (row_string (args w)))

abbrev pub as_list : Option Invocation → List Invocation
as_list none = []
as_list (some c) = c ∷ []

-- What follows the scan. `pipe_id` is what `call_pipe_create_anonymous` returned.
unfoldable pub calls_of : ℕ → Scan → List Invocation
calls_of pipe_id s =
    let piped = invocation s.args 0 s.is_fg1 (0, pipe_id) in
    let alone = invocation s.args 0 s.is_fg1 (0, 0) in
    let second = λ (w : ℕ). as_list (invocation s.args w true (pipe_id, 0)) in
    elim (find_from command_list 0 (row_string (s.args 0))) [
      | none ↦ second 1
      | some i ↦
          if s.end_first_com == 0
          then as_list alone
          else as_list piped ++ second (1 + get_or command_args i 0)
    ]

-- `__seek_command__`, with the calls of `__call_command__` in their order.
unfoldable pub seek_command : (ℕ → ℕ → ℕ) → ℕ → (command : ℕ → ℕ) → Run (List Invocation)
seek_command args pipe_id command =
    scan 21 command 0 (at_first args) >>= λ s. ok (calls_of pipe_id s)
