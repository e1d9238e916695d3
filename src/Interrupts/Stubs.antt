-- ===== src/Interrupts/Stubs.antt =====
-- Userland/SampleCodeModule/asm/UserSyscalls.asm: the stubs of the user programs, their numbers and
-- the registers that they fill.
use boke_os.Base.{ℕ}
use boke_os.Interrupts.Calls.{Registers}

pub data Stub : Type 0 where
  call_sys_write call_sys_read call_time_clock call_reg_state call_paint_screen call_boke
        call_draw_rectangle call_draw_ball call_clear_color call_put_square call_get_buffer_position
        call_get_char_at call_sleepms call_ticks_elapsed call_set_font_size call_draw_word_color_at
        call_character_at call_beep call_ps call_mem call_kill call_nice call_block call_force_kill
        call_create_process call_sem_wait call_sem_post call_sem_close call_sem_open
        call_force_timer call_waitpid get_pid user_malloc user_free call_pipe_open call_pipe_close
        call_pipe_create call_pipe_create_anonymous call_print_word_color call_yield :
      Stub

-- The arguments of a C call, in `rdi`, `rsi`, `rdx`, `rcx`, `r8` and `r9`.
pub record Arguments : Type 0 where
  pub first : ℕ
  pub second : ℕ
  pub third : ℕ
  pub fourth : ℕ
  pub fifth : ℕ
  pub sixth : ℕ

-- The number that a stub gives to `call_to_handler`.
abbrev pub number : Stub → ℕ
number call_sys_write = 1
number call_sys_read = 2
number call_time_clock = 3
number call_reg_state = 4
number call_paint_screen = 5
number call_boke = 6
number call_draw_rectangle = 7
number call_draw_ball = 8
number call_clear_color = 9
number call_put_square = 10
number call_get_buffer_position = 11
number call_get_char_at = 12
number call_sleepms = 13
number call_ticks_elapsed = 14
number call_set_font_size = 15
number call_draw_word_color_at = 16
number call_character_at = 17
number call_beep = 18
number call_ps = 19
number call_mem = 20
number call_kill = 21
number call_nice = 22
number call_block = 23
number call_force_kill = 24
number call_create_process = 25
number call_sem_wait = 26
number call_sem_post = 27
number call_sem_close = 28
number call_sem_open = 29
number call_force_timer = 30
number call_waitpid = 31
number get_pid = 32
number user_malloc = 33
number user_free = 34
number call_pipe_open = 35
number call_pipe_close = 36
number call_pipe_create = 37
number call_pipe_create_anonymous = 38
number call_print_word_color = 39
number call_yield = 40

-- `call_to_handler`: each argument moves one register on, and the number comes first.
unfoldable pub call_to_handler : ℕ → Arguments → Registers
call_to_handler n a = record {
  rdi = n;
  rsi = a.first;
  rdx = a.second;
  rcx = a.third;
  r8 = a.fourth;
  r9 = a.fifth;
  r10 = a.sixth;
}
