-- ===== src/Interrupts/Calls.antt =====
-- `int_80` of Kernel/irqDispatcher.c: the number in `rdi` chooses what the kernel does. A `char *` or
-- a function is an address; the arguments are the registers, cut to the parameters that are an `int`, a
-- `uint32_t`, a `uint8_t` or a `char`.
use boke_os.Base.{ℕ, ◌%◌, ◌==◌, if◌then◌else◌}

pub record Registers : Type 0 where
  pub rdi : ℕ
  pub rsi : ℕ
  pub rdx : ℕ
  pub rcx : ℕ
  pub r8 : ℕ
  pub r9 : ℕ
  pub r10 : ℕ

-- The functions of the kernel that the system calls reach. `queue_print_process` and
-- `queue_print_mem` are `add_process_to_creation_queue` of those processes, `current_pid` is
-- `get_current_pcb()->process->pid`.
pub data KernelCall : Type 0 where
  print_reg_asm boke get_buffer_position ticks_elapsed queue_print_process queue_print_mem
        finish_current_tick current_pid create_pipe_anonymous :
      KernelCall
  time_clock paint_screen clear_color get_char_at sleepms set_font_size force_kill block_process
        my_sem_wait my_sem_post my_sem_close waitpid malloc free get_pipe_id close_pipe
        create_pipe :
      ℕ → KernelCall
  beep change_process_priority my_sem_open draw_word_color : ℕ → ℕ → KernelCall
  sys_write sys_read : ℕ → ℕ → ℕ → KernelCall
  draw_ball put_square draw_word_color_at character_at : ℕ → ℕ → ℕ → ℕ → KernelCall
  draw_rectangle : ℕ → ℕ → ℕ → ℕ → ℕ → KernelCall
  create_and_insert_process : ℕ → ℕ → ℕ → ℕ → ℕ → ℕ → KernelCall

-- The conversions to 32 bits and to 8.
abbrev pub to_int : ℕ → ℕ
to_int x = x % 4294967296

abbrev pub to_char : ℕ → ℕ
to_char x = x % 256

-- A call whose value is returned, a call after which 0 is returned, and the default.
pub data Service : Type 0 where
  answered done : KernelCall → Service
  no_call : Service

-- `int_80`
unfoldable pub int_80 : Registers → Service
int_80 r =
    if r.rdi == 1
    then done (sys_write r.rsi (to_int r.rdx) (to_int r.rcx))
    else if r.rdi == 2
    then done (sys_read r.rsi (to_int r.rdx) (to_int r.rcx))
    else if r.rdi == 3
    then done (time_clock r.rsi)
    else if r.rdi == 4
    then done print_reg_asm
    else if r.rdi == 5
    then done (paint_screen r.rsi)
    else if r.rdi == 6
    then done boke
    else if r.rdi == 7
    then done (draw_rectangle r.rsi (to_int r.rdx) (to_int r.rcx) (to_int r.r8) (to_int r.r9))
    else if r.rdi == 8
    then done (draw_ball r.rsi (to_int r.rdx) (to_int r.rcx) (to_int r.r8))
    else if r.rdi == 9
    then done (clear_color r.rsi)
    else if r.rdi == 10
    then done (put_square (to_int r.rsi) (to_int r.rdx) (to_int r.rcx) r.r8)
    else if r.rdi == 11
    then answered get_buffer_position
    else if r.rdi == 12
    then answered (get_char_at (to_int r.rsi))
    else if r.rdi == 13
    then done (sleepms (to_int r.rsi))
    else if r.rdi == 14
    then answered ticks_elapsed
    else if r.rdi == 15
    then done (set_font_size (to_int r.rsi))
    else if r.rdi == 16
    then done (draw_word_color_at r.rsi r.rdx (to_int r.rcx) (to_int r.r8))
    else if r.rdi == 17
    then done (character_at r.rsi (to_char r.rdx) (to_int r.rcx) (to_int r.r8))
    else if r.rdi == 18
    then done (beep (to_int r.rsi) (to_int r.rdx))
    else if r.rdi == 19
    then done queue_print_process
    else if r.rdi == 20
    then done queue_print_mem
    else if r.rdi == 21
    then answered (force_kill (to_int r.rsi))
    else if r.rdi == 22
    then done (change_process_priority (to_int r.rsi) (to_int r.rdx))
    else if r.rdi == 23
    then answered (block_process (to_int r.rsi))
    else if r.rdi == 24
    then answered (force_kill (to_int r.rsi))
    else if r.rdi == 25
    then answered (create_and_insert_process r.rsi (to_char r.rdx) r.rcx r.r8 r.r9 r.r10)
    else if r.rdi == 26
    then answered (my_sem_wait r.rsi)
    else if r.rdi == 27
    then answered (my_sem_post r.rsi)
    else if r.rdi == 28
    then done (my_sem_close r.rsi)
    else if r.rdi == 29
    then answered (my_sem_open r.rsi r.rdx)
    else if r.rdi == 30
    then done finish_current_tick
    else if r.rdi == 31
    then answered (waitpid (to_int r.rsi))
    else if r.rdi == 32
    then answered current_pid
    else if r.rdi == 33
    then answered (malloc r.rsi)
    else if r.rdi == 34
    then done (free r.rsi)
    else if r.rdi == 35
    then answered (get_pipe_id (to_int r.rsi))
    else if r.rdi == 36
    then done (close_pipe (to_int r.rsi))
    else if r.rdi == 37
    then answered (create_pipe (to_int r.rsi))
    else if r.rdi == 38
    then answered create_pipe_anonymous
    else if r.rdi == 39
    then done (draw_word_color r.rsi r.rdx)
    else if r.rdi == 40
    then done finish_current_tick
    else no_call
