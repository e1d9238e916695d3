-- ===== src/Screen/Cursor.antt =====
-- The cursor of Kernel/drivers/videoDriver.c in the default font size: cells of 16 by 32 pixels.
use boke_os.Base.{
  ℕ, zero, suc, ◌+◌, ◌-◌, ◌*◌, ◌/◌, ◌%◌, ◌≤◌, ◌<◌, ◌≡◌, ap, inl, inr, Bool-cases, List, [], ◌∷◌,
  ◌==◌, leb, arith, ◌⊎◌,
}
use boke_os.Screen.{
  Screen, draw_rectangle, move_one_line_up, check_line_up, newline, step_back, backspace, forward,
  forward_times, tab, is_white_space, draw_char, character, draw_word_color, uint_32,
}
use boke_os.Strings.{memcpy}
use boke_os.Screen.Drawing.{SameCursor, draw_rectangle-Same, draw_char-Same}

-- The cursor stands at a cell of a row of the screen, in the default font size.
abbrev pub IsFitted : Screen → Type 0
IsFitted s =
    (s.size ≡ 2)
    × (s.cursor_x % 16 ≡ 0)
    × (s.cursor_x < 4294967296)
    × (s.cursor_y % 32 ≡ 0)
    × (s.cursor_y < 768)

-- A cell of the screen begins at the cursor.
abbrev pub OnScreen : Screen → Type 0
OnScreen s = (s.cursor_x + 16 ≤ 1024) × (s.cursor_y + 32 ≤ 768)

IsFitted-Same : (s t : Screen) → SameCursor s t → IsFitted s → IsFitted t
IsFitted-Same s t same h = ground (arith, same.at_x, same.at_y, same.at_size)

-- The cursor that `move_one_line_up` leaves.
move_one_line_up-cursor :
    (s : Screen)
    → ((move_one_line_up s).cursor_x ≡ s.cursor_x)
      × ((move_one_line_up s).cursor_y
          ≡ uint_32 (s.cursor_y + (4294967296 - uint_32 (s.size * 16))))
      × ((move_one_line_up s).size ≡ s.size)
unfolding move_one_line_up
move_one_line_up-cursor s =
    let line : ℕ = uint_32 (s.size * 16) in
    let rest : ℕ = uint_32 (s.height + (4294967296 - line)) in
    let s1 : Screen = record s {
      memory =
          memcpy s.memory s.framebuffer (s.framebuffer + uint_32 (s.pitch * s.size * 16))
            (uint_32 (s.pitch * rest));
    } in
    let same : SameCursor s1 (draw_rectangle s.bg_color 0 rest 1024 line s1) =
      draw_rectangle-Same s.bg_color 0 rest 1024 line s1 in
    (same.at_x, ap (λ y. uint_32 (y + (4294967296 - line))) same.at_y, same.at_size)

check_line_up-OnScreen :
    (s : Screen)
    → s.size ≡ 2
    → s.cursor_x % 16 ≡ 0
    → s.cursor_x < 4294967296
    → s.cursor_y % 32 ≡ 0
    → (s.cursor_y < 768) ⊎ ((s.cursor_y ≡ 768) × (s.cursor_x ≡ 0))
    → IsFitted (check_line_up s) × OnScreen (check_line_up s)
unfolding check_line_up
check_line_up-OnScreen s size x xs y ys = elim (Bool-cases (leb 1024 s.cursor_x)) [
  | inl right ↦ elim (Bool-cases (leb 768 (uint_32 (s.cursor_y + s.size * 16)))) [
    | inl below ↦
        let up =
          move_one_line_up-cursor
            (record s { cursor_x = 0; cursor_y = uint_32 (s.cursor_y + s.size * 16) }) in
        rw (right, check_line_up) (rw below (ground (arith, up)))
    | inr above ↦ rw (right, check_line_up) (rw above (ground arith))
  ]
  | inr left ↦ elim (Bool-cases (leb 768 s.cursor_y)) [
    | inl below ↦
        let up = move_one_line_up-cursor (record s { cursor_x = 0 }) in
        rw (left, check_line_up) (rw below (ground (arith, up)))
    | inr above ↦ rw (left, check_line_up) (rw above (ground arith))
  ]
]

newline-Fitted : (s : Screen) → IsFitted s → IsFitted (newline s)
unfolding newline
newline-Fitted s h =
    (check_line_up-OnScreen
      (record s { cursor_x = 0; cursor_y = uint_32 (s.cursor_y + s.size * 16) }) h.0 (omega arith)
      (omega arith) (ground arith) (ground arith)).0

forward-Fitted : (s : Screen) → IsFitted s → IsFitted (forward s)
unfolding forward
forward-Fitted s h = ground arith

forward_times-Fitted : (n : ℕ) (s : Screen) → IsFitted s → IsFitted (forward_times n s)
unfolding forward_times
forward_times-Fitted zero s h = h
forward_times-Fitted (suc n) s h = forward_times-Fitted n (forward s) (forward-Fitted s h)

step_back-Fitted : (s : Screen) → IsFitted s → IsFitted (step_back s)
unfolding step_back
step_back-Fitted s h = ground arith

backspace-Fitted : (s : Screen) → IsFitted s → IsFitted (backspace s)
unfolding backspace
backspace-Fitted s h =
    let s1 : Screen = step_back s in
    IsFitted-Same s1 (backspace s)
      (draw_rectangle-Same s1.bg_color s1.cursor_x s1.cursor_y (uint_32 (s.size * 8))
        (uint_32 (s.size * 16)) s1)
      (step_back-Fitted s h)

glyph-Fitted :
    (font : ℕ → ℕ) (color c : ℕ) (s : Screen)
    → IsFitted s
    → IsFitted (forward (draw_char font color c (check_line_up s)))
glyph-Fitted font color c s h =
    let s1 : Screen = check_line_up s in
    let placed = check_line_up-OnScreen s h.0 h.1 h.2 h.3 (inl h.4) in
    forward-Fitted (draw_char font color c s1)
      (IsFitted-Same s1 _ (draw_char-Same font color c s1) placed.0)

character-Fitted :
    (font : ℕ → ℕ) (color c : ℕ) (s : Screen) → IsFitted s → IsFitted (character font color c s)
unfolding character tab
character-Fitted font color c s h = elim (Bool-cases (c == 8)) [
  | inl is_8 ↦ rw (is_8, character) (backspace-Fitted s h)
  | inr not_8 ↦ elim (Bool-cases (is_white_space c)) [
    | inl white ↦ rw (not_8, character) (rw white (forward-Fitted s h))
    | inr dark ↦ elim (Bool-cases (c == 10)) [
      | inl is_10 ↦ rw (not_8, character) (rw dark (rw is_10 (newline-Fitted s h)))
      | inr not_10 ↦ elim (Bool-cases (c == 9)) [
        | inl is_9 ↦
            rw (not_8, character)
              (rw dark (
                rw not_10
                  (rw is_9 (forward_times-Fitted (5 - s.cursor_x / uint_32 (s.size * 8) % 5) s h))))
        | inr not_9 ↦
            rw (not_8, character) (rw dark (rw not_10 (rw not_9 (glyph-Fitted font color c s h))))
      ]
    ]
  ]
]

draw_word_color-Fitted :
    (font : ℕ → ℕ) (color : ℕ) (word : List ℕ) (s : Screen)
    → IsFitted s
    → IsFitted (draw_word_color font color word s)
unfolding draw_word_color
draw_word_color-Fitted font color [] s h = h
draw_word_color-Fitted font color (c ∷ cs) s h =
    draw_word_color-Fitted font color cs (character font color c s)
      (character-Fitted font color c s h)

-- In the default font size, from a cursor at a cell of a row of the screen, whatever word is printed leaves it
-- so, and the next glyph, behind `check_line_up`, has a whole cell on the screen.
pub draw_word_color-OnScreen :
    (font : ℕ → ℕ) (color : ℕ) (word : List ℕ) (s : Screen)
    → IsFitted s
    → IsFitted (draw_word_color font color word s)
      × OnScreen (check_line_up (draw_word_color font color word s))
draw_word_color-OnScreen font color word s h =
    let k = draw_word_color-Fitted font color word s h in
    (k, (check_line_up-OnScreen (draw_word_color font color word s) k.0 k.1 k.2 k.3 (inl k.4)).1)
