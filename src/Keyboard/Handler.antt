-- ===== src/Keyboard/Handler.antt =====
-- Kernel/keyboard_buffer.c and `keyboard_handler` of Kernel/drivers/keyboard_driver.c. A read or a
-- write outside the buffer or the table of scan codes is `fault`. What the handler calls in other
-- parts of the kernel is the list of those calls, in their order.
use boke_os.Base.{
  ℕ, Bool, true, false, ◌||◌, Option, none, some, ◌+◌, List, [], ◌∷◌, ◌++◌, ltb, ◌==◌,
  if◌then◌else◌, update,
}
use boke_os.Base.Run.{Run, fault, ok, ◌>>=◌}
use boke_os.Keyboard.ScanCodes.{scan_code}

-- `BUFF_SIZE`
abbrev pub buff_size : ℕ
buff_size = 4096

-- `_EOF_`
abbrev pub eof : ℕ
eof = 1

-- `struct keyboard_buffer`, the handler's two static variables, and `process_started` of syscalls.c.
pub record Keyboard : Type 0 where
  pub buffer_pos : ℕ
  pub buff : ℕ → ℕ
  pub shift_pressed : Bool
  pub ctrl_pressed : Bool
  pub process_started : Bool

-- The calls that leave the keyboard.
pub data Call : Type 0 where
  kill_foreground_process post_keyboard send_eof_to_foreground print_process clear save_state : Call

module _ (k : Keyboard) where
  abbrev pub get_buffer_position : ℕ
  get_buffer_position = k.buffer_pos

  abbrev pub set_pos : ℕ → Keyboard
  set_pos new_pos = record k { buffer_pos = new_pos }

  unfoldable pub get_char_at : ℕ → Run ℕ
  get_char_at pos = if ltb pos buff_size then ok (k.buff pos) else fault

  -- `buff[pos] = key`
  unfoldable pub write_at : ℕ → ℕ → Run Keyboard
  write_at pos key =
      if ltb pos buff_size then ok (record k { buff = update k.buff pos key }) else fault

  unfoldable pub consume_buff_at : ℕ → Run Keyboard
  consume_buff_at pos = write_at pos 0

  -- The cells from 0 up to `BUFF_SIZE` are cleared.
  unfoldable pub clear_buffer : Keyboard
  clear_buffer = record k { buff = λ i. if ltb i buff_size then 0 else k.buff i }

  -- `if (get_process_started()) my_sem_post(sem_id_keyboard)`
  abbrev pub post_if_started : List Call
  post_if_started = if k.process_started then post_keyboard ∷ [] else []

-- `scan_codes[key]`
unfoldable pub code_of : ℕ → Run ℕ
code_of key = if ltb key 256 then ok (scan_code key) else fault

-- The two keys that shift changes.
unfoldable pub shifted : Bool → ℕ → ℕ
shifted shift_pressed key =
    if shift_pressed
    then (if scan_code key == 55 then 84 else if scan_code key == 92 then 85 else key)
    else key

-- The place of the character after the one at `pos`.
unfoldable pub next_pos : ℕ → ℕ
next_pos pos = if ltb (pos + 1) buff_size then pos + 1 else 0

-- The end of the handler: the key goes into the buffer.
unfoldable pub put_key : ℕ → Keyboard → Run (Keyboard × List Call)
put_key key k =
    let key' = shifted k.shift_pressed key in
    let buff_pos = k.buffer_pos in
    write_at (set_pos k (next_pos buff_pos)) (next_pos buff_pos) 0 >>= λ k'.
    write_at k' buff_pos key' >>= λ k''. code_of key' >>= λ code.
    ok (k'', (if code == 59 then save_state ∷ [] else []) ++ post_if_started k'')

-- Control and D.
unfoldable pub send_eof : Option Bool → Keyboard → Run (Keyboard × List Call)
send_eof none k = fault
send_eof (some true) k = put_key eof (record k { shift_pressed = false })
send_eof (some false) k = ok (k, send_eof_to_foreground ∷ [])

-- A key while control is held, by the character of its scan code. `shell` says whether the process
-- in the foreground reads from the shell (`fr == SHELL`); it is `none` when `get_pcb_entry` finds no such
-- process, whose NULL the source follows.
unfoldable pub on_ctrl : Option Bool → ℕ → Keyboard → Run (Keyboard × List Call)
on_ctrl shell code k =
    if code == 67
    then ok (clear_buffer k, kill_foreground_process ∷ post_if_started k)
    else if code == 68
    then send_eof shell k
    else if code == 80
    then ok (k, print_process ∷ [])
    else if code == 76
    then ok (k, clear ∷ [])
    else ok (k, [])

-- `keyboard_handler`, with what `get_key` returned.
unfoldable pub keyboard_handler : Option Bool → ℕ → Keyboard → Run (Keyboard × List Call)
keyboard_handler shell key k =
    if key == 0
    then ok (k, [])
    else if key == 42 || key == 54
    then ok (record k { shift_pressed = true }, [])
    else if key == 170 || key == 182
    then ok (record k { shift_pressed = false }, [])
    else if key == 29
    then ok (record k { ctrl_pressed = true }, [])
    else if key == 157
    then ok (record k { ctrl_pressed = false }, [])
    else if k.ctrl_pressed
    then (code_of key >>= λ code. on_ctrl shell code k)
    else put_key key k
