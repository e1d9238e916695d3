-- ===== src/Userland/Commands/Lines.antt =====
-- What a whole line of the shell calls.
use boke_os.Base.{
  ℕ, zero, suc, ◌+◌, ◌≤◌, ◌<◌, ◌≡◌, refl, ap, ap₂, arith, Bool, true, none, some, List, [], ◌∷◌,
  length, take, get_or,
}
use boke_os.Base.Run.{ok, Returns-result}
use boke_os.Userland.Commands.Table.{command_list, command_args, find_from}
use boke_os.Userland.Commands.Words.{Scan, row_string}
use boke_os.Userland.Commands.Seek.{seek_command, calls_of, invocation, argv_of, as_list, at_first}
use boke_os.Userland.Commands.Rows.{At}
use boke_os.Userland.Commands.Scanning.{Words, Rows, joined, scan-Words}

argv_of-take :
    (args : ℕ → ℕ → ℕ) (w n : ℕ) (ys : List (List ℕ))
    → Rows args (w + 1) ys
    → n ≤ length ys
    → argv_of args w n ≡ take n ys
argv_of-take args w zero ys r h = refl
argv_of-take args w (suc n) [] r h = absurd (omega arith)
argv_of-take args w (suc n) (y ∷ ys) r h =
    ap₂ ◌∷◌ r.0 (argv_of-take args (w + 1) n ys r.1 (omega arith))

invocation-found :
    (args : ℕ → ℕ → ℕ) (w k : ℕ) (is_fg : Bool) (fd : ℕ × ℕ) (x : List ℕ) (argv : List (List ℕ))
    → row_string (args w) ≡ x
    → find_from command_list 0 x ≡ some k
    → argv_of args w (get_or command_args k 0) ≡ argv
    → invocation args w is_fg fd
      ≡ some (record { index = k; command = x; is_fg = is_fg; argv = argv; fd = fd })
unfolding invocation
invocation-found args w k is_fg fd x argv r f a = rw (r, f, a, invocation) refl

calls_of-first :
    (pipe_id : ℕ) (s : Scan) (x : List ℕ) (k : ℕ) (argv : List (List ℕ))
    → row_string (s.args 0) ≡ x
    → find_from command_list 0 x ≡ some k
    → s.end_first_com ≡ 0
    → s.is_fg1 ≡ true
    → argv_of s.args 0 (get_or command_args k 0) ≡ argv
    → calls_of pipe_id s
      ≡ (record { index = k; command = x; is_fg = true; argv = argv; fd = (0, 0) }) ∷ []
unfolding calls_of
calls_of-first pipe_id s x k argv r f e g a =
    let call = invocation-found s.args 0 k true (0, 0) x argv r f a in
    rw (r, f, e, g, calls_of) (ap as_list call)

calls_of-second :
    (pipe_id : ℕ) (s : Scan) (x y : List ℕ) (k : ℕ) (argv : List (List ℕ))
    → row_string (s.args 0) ≡ x
    → find_from command_list 0 x ≡ none
    → row_string (s.args 1) ≡ y
    → find_from command_list 0 y ≡ some k
    → argv_of s.args 1 (get_or command_args k 0) ≡ argv
    → calls_of pipe_id s
      ≡ (record { index = k; command = y; is_fg = true; argv = argv; fd = (pipe_id, 0) }) ∷ []
unfolding calls_of
calls_of-second pipe_id s x y k argv r f q g a =
    let call = invocation-found s.args 1 k true (pipe_id, 0) y argv q g a in
    rw (r, f, calls_of) (ap as_list call)

-- A line of words, the first of which is the name of a command with at most as many arguments as
-- there are further words, calls this command once, in the foreground, on the words behind it,
-- without a pipe. The line has at most 20 characters with the zero at its end, the words at most 9.
pub seek_command-Words :
    (args : ℕ → ℕ → ℕ) (pipe_id : ℕ) (command : ℕ → ℕ) (x : List ℕ) (ys : List (List ℕ)) (k : ℕ)
    → Words (x ∷ ys)
    → At command 0 (joined x ys)
    → length ys < 10
    → length (joined x ys) ≤ 20
    → find_from command_list 0 x ≡ some k
    → get_or command_args k 0 ≤ length ys
    → seek_command args pipe_id command
      ≡ ok (
          (record {
            index = k;
            command = x;
            is_fg = true;
            argv = take (get_or command_args k 0) ys;
            fd = (0, 0);
          })
          ∷ [])
unfolding seek_command
seek_command-Words args pipe_id command x ys k p a hw hi f n =
    let (s, run, (rows, ends, fg, same)) = Returns-result (
      scan-Words x ys 21 command 0 (at_first args) p a (omega arith) refl (omega arith)
        (omega arith)) in
    let argv = argv_of-take s.args 0 (get_or command_args k 0) ys rows.1 n in
    rw run (ap ok (calls_of-first pipe_id s x k _ rows.0 f ends fg argv))

-- A line whose first word names no command calls the command that the second word names, on the
-- words behind it, reading from the pipe that was created.
pub seek_command-unknown :
    (args : ℕ → ℕ → ℕ) (pipe_id : ℕ) (command : ℕ → ℕ) (x y : List ℕ) (ys : List (List ℕ)) (k : ℕ)
    → Words (x ∷ y ∷ ys)
    → At command 0 (joined x (y ∷ ys))
    → length ys < 9
    → length (joined x (y ∷ ys)) ≤ 20
    → find_from command_list 0 x ≡ none
    → find_from command_list 0 y ≡ some k
    → get_or command_args k 0 ≤ length ys
    → seek_command args pipe_id command
      ≡ ok (
          (record {
            index = k;
            command = y;
            is_fg = true;
            argv = take (get_or command_args k 0) ys;
            fd = (pipe_id, 0);
          })
          ∷ [])
unfolding seek_command
seek_command-unknown args pipe_id command x y ys k p a hw hi f g n =
    let (s, run, (rows, ends, fg, same)) = Returns-result (
      scan-Words x (y ∷ ys) 21 command 0 (at_first args) p a (omega arith) refl (omega arith)
        (omega arith)) in
    let argv = argv_of-take s.args 1 (get_or command_args k 0) ys rows.1.1 n in
    rw run (ap ok (calls_of-second pipe_id s x y k _ rows.0 f rows.1.0 g argv))
