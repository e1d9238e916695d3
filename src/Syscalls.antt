-- ===== src/Syscalls.antt =====
-- `sys_write` and `sys_read` of Kernel/syscalls.c: to and from the shell or a pipe. `buf` is the bytes
-- from its address on, as many as `len`. A system call comes from a process. The rounds over the keyboard buffer are in Keyboard.Reading.
pub mod Piped
mod Tests
use boke_os.Base.{
  ℕ, Bool, true, false, Option, none, some, ◌&&◌, not, List, [], ◌∷◌, length, ◌==◌, if◌then◌else◌,
}
use boke_os.Kernel.{Kernel, Allocator, process_at}
use boke_os.Scheduler.Search.{current_process_id}
use boke_os.Scheduler.Priority.{finish_current_tick}
use boke_os.Scheduler.Blocking.{os_block_current_process}
use boke_os.Semaphore.Locks.{add_to_queue}
use boke_os.Semaphore.Spaces.{same_pid}
use boke_os.Pipe.Table.{Pipes}
use boke_os.Pipe.Transfer.{Transfer, pipe_write, pipe_read}
use boke_os.Screen.{Screen, draw_word_color}
use boke_os.Screen.Painting.{draw_word_len, draw_word_color_len}

-- What the two calls work on.
pub record Machine (Mem : Type 0) : Type 0 where
  pub kernel : Kernel Mem
  pub pipes : Pipes
  pub screen : Screen

-- `SHELL`
abbrev pub shell : ℕ
shell = 0

-- The string that stands in front of the first 0.
unfoldable pub until_zero : List ℕ → List ℕ
until_zero [] = []
until_zero (c ∷ cs) = let rest = until_zero cs in if c == 0 then [] else c ∷ rest

-- `Invalid file descriptor`
abbrev pub invalid_text : List ℕ
invalid_text =
    b'I' ∷ b'n' ∷ b'v' ∷ b'a' ∷ b'l' ∷ b'i' ∷ b'd' ∷ 32 ∷ b'f' ∷ b'i' ∷ b'l' ∷ b'e' ∷ 32 ∷ b'd'
    ∷ b'e' ∷ b's' ∷ b'c' ∷ b'r' ∷ b'i' ∷ b'p' ∷ b't' ∷ b'o' ∷ b'r' ∷ []

unfoldable pub invalid_fd : (font : ℕ → ℕ) → Screen → Screen
invalid_fd font s = draw_word_color font 0xFF0000 invalid_text s

-- What a call comes to: to or from the shell, or a transfer of a pipe with what is left of the message.
pub data Write : Type 0 where
  drawn : Write
  piped : Transfer → (rest : List ℕ) → Write

-- The wait for the foreground, the read of `len` characters of the keyboard, a descriptor that is not
-- STDIN, a call where no process runs, which is not followed further, and a transfer of a pipe with
-- the bytes of `buf` and the rounds that are left.
pub data Read : Type 0 where
  not_foreground : Read
  from_keyboard : (len : ℕ) → Read
  invalid : Read
  no_process : Read
  from_pipe : Transfer → (buf : List ℕ) → (left : ℕ) → Read

module _ (A : Allocator) (text_at : ℕ → List ℕ) (font : ℕ → ℕ) where
  -- What is written to the shell.
  unfoldable pub draw_written : (buf : List ℕ) (fd : ℕ) → Screen → Screen
  draw_written buf fd s =
      if fd == 1
      then draw_word_len font (until_zero buf) (length buf) s
      else if fd == 2
      then draw_word_color_len font 0xFF0000 (until_zero buf) (length buf) s
      else invalid_fd font s

  -- `sys_write`
  unfoldable pub sys_write : (buf : List ℕ) (fd : ℕ) → Machine A.Mem → Write × Machine A.Mem
  sys_write buf fd m =
      let p = process_at m.kernel m.kernel.current_pcb in
      let (w, rest, t, k) = pipe_write A text_at p.fw buf m.pipes m.kernel in
      if (p.fw == shell) && (p.pid == m.kernel.foreground_pid)
      then (drawn, record m { screen = draw_written buf fd m.screen })
      else (piped w rest, record m { pipes = t; kernel = k })

  -- `sys_read`
  unfoldable pub sys_read : (len fd : ℕ) → Machine A.Mem → Read × Machine A.Mem
  sys_read len fd m =
      let p = process_at m.kernel m.kernel.current_pcb in
      let (w, buf, left, t, k) = pipe_read A text_at p.fr len m.pipes m.kernel in
      elim (current_process_id m.kernel) [
        | none ↦ (no_process, m)
        | some pid ↦
            if not (m.kernel.foreground_pid == pid)
            then (
              not_foreground,
              record m {
                kernel =
                    finish_current_tick
                      (os_block_current_process (add_to_queue A 0 pid m.kernel).1).1;
              },
            )
            else if not (p.fr == shell)
            then (from_pipe w buf left, record m { pipes = t; kernel = k })
            else if fd == 0
            then (from_keyboard len, m)
            else (invalid, record m { screen = invalid_fd font m.screen })
      ]
