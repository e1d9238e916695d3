-- ===== src/Keyboard/Bounds.antt =====
-- The handler stays inside the buffer, and keeps track of control.
use boke_os.Base.{
  ℕ, Bool, if◌then◌else◌, ◌||◌, true, false, ◌<◌, ◌≡◌, ◌≢◌, Option, none, some, refl, arith, ltb,
  ◌==◌, List,
}
use boke_os.Base.Run.{Returns, returns, Returns-if, Returns-weaken}
use boke_os.Keyboard.ScanCodes.{scan_code}
use boke_os.Keyboard.Handler.{
  Keyboard, Call, keyboard_handler, on_ctrl, send_eof, put_key, write_at, code_of, shifted,
  next_pos, clear_buffer,
}

-- What a key leaves: a position inside the buffer, and the state of control.
abbrev pub Leaves : Bool → Keyboard × List Call → Type 0
Leaves ctrl r = (r.0.buffer_pos < 4096) × (r.0.ctrl_pressed ≡ ctrl)

pub shifted-Bound : (s : Bool) (key : ℕ) → key < 256 → shifted s key < 256
unfolding shifted
shifted-Bound s key h = ground arith

pub next_pos-Bound : (pos : ℕ) → next_pos pos < 4096
unfolding next_pos
next_pos-Bound pos = ground arith

put_key-Leaves :
    (key : ℕ) (k : Keyboard)
    → key < 256
    → k.buffer_pos < 4096
    → Returns (Leaves k.ctrl_pressed) (put_key key k)
unfolding put_key write_at code_of
put_key-Leaves key k h l =
    let a : ltb (next_pos k.buffer_pos) 4096 ≡ true = ground (arith, next_pos-Bound k.buffer_pos) in
    let b : ltb k.buffer_pos 4096 ≡ true = ground arith in
    let c : ltb (shifted k.shift_pressed key) 256 ≡ true =
      ground (arith, shifted-Bound k.shift_pressed key h) in
    rw (a, b, c) (returns (next_pos-Bound k.buffer_pos, refl))

send_eof-Leaves :
    (shell : Option Bool) (k : Keyboard)
    → shell ≢ none
    → k.buffer_pos < 4096
    → Returns (Leaves k.ctrl_pressed) (send_eof shell k)
unfolding send_eof
send_eof-Leaves none k found l = absurd (found refl)
send_eof-Leaves (some true) k found l =
    put_key-Leaves 1 (record k { shift_pressed = false }) (omega arith) l
send_eof-Leaves (some false) k found l = returns (l, refl)

on_ctrl-Leaves :
    (shell : Option Bool) (code : ℕ) (k : Keyboard)
    → shell ≢ none
    → k.buffer_pos < 4096
    → Returns (Leaves k.ctrl_pressed) (on_ctrl shell code k)
unfolding on_ctrl clear_buffer
on_ctrl-Leaves shell code k found l =
    Returns-if {b = code == 67} (λ _. returns (l, refl))
      (λ _.
        Returns-if {b = code == 68} (λ _. send_eof-Leaves shell k found l)
          (λ _.
            Returns-if {b = code == 80} (λ _. returns (l, refl))
              (λ _. Returns-if {b = code == 76} (λ _. returns (l, refl)) (λ _. returns (l, refl)))))

-- Whatever key comes in while the process of the foreground has an entry, the handler neither reads nor
-- writes outside the buffer or the table of scan codes when the buffer's position is inside, and leaves
-- the position inside.
pub keyboard_handler-Leaves :
    (shell : Option Bool) (key : ℕ) (k : Keyboard)
    → shell ≢ none
    → key < 256
    → k.buffer_pos < 4096
    → Returns
        (Leaves (if key == 29 then true else if key == 157 then false else k.ctrl_pressed))
        (keyboard_handler shell key k)
unfolding keyboard_handler code_of
keyboard_handler-Leaves shell key k found h l =
    let a = put_key-Leaves key k h l in
    let b = on_ctrl-Leaves shell (scan_code key) k found l in
    let c : ltb key 256 ≡ true = ground arith in
    rw c (
      Returns-if {b = key == 0} (λ e. returns (l, ground arith))
        (λ _.
          Returns-if {b = key == 42 || key == 54} (λ e. returns (l, ground arith))
            (λ _.
              Returns-if {b = key == 170 || key == 182} (λ e. returns (l, ground arith))
                (λ _.
                  Returns-if {b = key == 29} (λ e. returns (l, ground arith))
                    (λ no_press.
                      Returns-if {b = key == 157} (λ e. returns (l, ground arith))
                        (λ no_release.
                          Returns-if {b = k.ctrl_pressed}
                            (λ e. Returns-weaken (λ r q. (q.0, ground arith)) b)
                            (λ _. Returns-weaken (λ r q. (q.0, ground arith)) a)))))))
