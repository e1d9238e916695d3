-- ===== src/Keyboard/Reading.antt =====
-- The read from the keyboard in `sys_read` of Kernel/syscalls.c. `aux` is a signed char, so it is
-- positive for 1 to 127. Between two rounds the process waits on the semaphore that the handler
-- posts, so the keys that come in are steps between the rounds.
use boke_os.Base.{ℕ, Bool, ◌+◌, ◌%◌, ◌&&◌, List, [], ◌∷◌, ◌++◌, ltb, some, ◌==◌, if◌then◌else◌}
use boke_os.Base.Run.{Run, ok, ◌>>=◌}
use boke_os.Keyboard.ScanCodes.{scan_code}
use boke_os.Keyboard.Handler.{Keyboard, get_char_at, set_pos, keyboard_handler, eof}

-- The variable `pos` and the part of `buf` that is filled.
pub record Reader : Type 0 where
  pub pos : ℕ
  pub got : List ℕ

-- The character that a scan code of the buffer is read as.
unfoldable pub char_of : ℕ → ℕ
char_of aux = if aux == 57 then 32 else if aux == eof then eof else scan_code aux

-- One round of the loop, after the wait.
unfoldable pub read_round : Reader → Keyboard → Run (Reader × Keyboard)
read_round r k = get_char_at k r.pos >>= λ cell.
    let aux = cell % 256 in
    if ltb 0 aux && ltb aux 128
    then ok (record { pos = r.pos + 1; got = r.got ++ char_of aux ∷ [] }, set_pos k (r.pos + 1))
    else ok (record r { pos = k.buffer_pos }, k)

-- Keys that come in one by one, each followed by a round of the reader.
unfoldable pub type_and_read : Bool → List ℕ → Reader → Keyboard → Run (Reader × Keyboard)
type_and_read shell [] r k = ok (r, k)
type_and_read shell (key ∷ keys) r k = keyboard_handler (some shell) key k >>= λ after.
    read_round r after.0 >>= λ next. type_and_read shell keys next.0 next.1
