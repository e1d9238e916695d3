-- ===== src/Userland/Commands/Call.antt =====
-- `__call_command__`: what a command starts or does at once.
use boke_os.Base.{ℕ, some, Bool, false, ◌||◌, List, [], get_or, ◌==◌, if◌then◌else◌}
use boke_os.Base.Int.{ℤ, pos, negsuc}
use boke_os.Userland.Utils.{satoi}

-- The functions that run as a process of their own.
pub data Program : Type 0 where
  help time pong cat wc phylo filter loop tests : Program

-- What `__call_command__` does. The arguments of the last two system calls are process ids.
pub data Action : Type 0 where
  create_process : Program → (is_fg : Bool) → (fd : ℕ × ℕ) → Action
  reg_state divide_by_zero invalid_op boke ps mem clear_color invalid_pid unknown nothing : Action
  set_background : (command : List ℕ) → Action
  kill : ℤ → Action
  block : ℤ → Action

-- What `__seek_command__` passes on.
pub record Invocation : Type 0 where
  pub index : ℕ
  pub command : List ℕ
  pub is_fg : Bool
  pub argv : List (List ℕ)
  pub fd : ℕ × ℕ

abbrev is_minus_one : ℤ → Bool
is_minus_one (pos n) = false
is_minus_one (negsuc n) = n == 0

-- `satoi(argv[i])`
abbrev argument : Invocation → ℕ → ℤ
argument c i = satoi (some (get_or c.argv i []))

-- `__call_command__`, by the values of `enum Commands`.
unfoldable pub call_command : Invocation → Action
call_command c =
    let run = λ (program : Program). create_process program c.is_fg c.fd in
    let pid = argument c 0 in
    let priority = argument c 1 in
    if c.index == 0
    then run help
    else if c.index == 1
    then run time
    else if c.index == 2
    then reg_state
    else if c.index == 3
    then run pong
    else if c.index == 4
    then set_background c.command
    else if c.index == 5
    then divide_by_zero
    else if c.index == 6
    then invalid_op
    else if c.index == 7
    then boke
    else if c.index == 8
    then ps
    else if c.index == 9
    then mem
    else if c.index == 10
    then (if is_minus_one pid then invalid_pid else kill pid)
    else if c.index == 11
    then (if is_minus_one pid || is_minus_one priority then invalid_pid else nothing)
    else if c.index == 12
    then (if is_minus_one pid then invalid_pid else block pid)
    else if c.index == 13
    then run cat
    else if c.index == 14
    then run wc
    else if c.index == 15
    then run phylo
    else if c.index == 16
    then run filter
    else if c.index == 17
    then run loop
    else if c.index == 18
    then run tests
    else if c.index == 19
    then clear_color
    else unknown
