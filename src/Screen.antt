-- ===== src/Screen.antt =====
-- Kernel/drivers/videoDriver.c: pixels, rectangles, and the cursor that characters move. The frame buffer
-- is a part of memory; `uint32_t` values wrap at 2 ^ 32. The font is a parameter: the table of
-- Kernel/drivers/include/font.h.
pub mod Pixels
pub mod Drawing
pub mod Painting
pub mod Cursor
mod Tests
use boke_os.Base.{
  ℕ, zero, suc, ◌+◌, ◌-◌, ◌*◌, ◌/◌, ◌%◌, ◌^◌, Bool, true, false, not, ◌&&◌, ◌||◌, List, [], ◌∷◌,
  ◌==◌, ltb, leb, if◌then◌else◌, update,
}
use boke_os.Strings.{Memory, memcpy}

-- The globals, with what is read of `VBE_mode_info`.
pub record Screen : Type 0 where
  pub memory : Memory
  pub framebuffer : ℕ
  pub pitch : ℕ
  pub width : ℕ
  pub height : ℕ
  pub bg_color : ℕ
  pub cursor_x : ℕ
  pub cursor_y : ℕ
  pub size : ℕ

abbrev pub uint_32 : ℕ → ℕ
uint_32 n = n % 4294967296

abbrev pub offset : Screen → (x y : ℕ) → ℕ
offset s x y = uint_32 (s.pitch * y + x * 3)

-- `put_pixel`; the three bytes of a colour, the lowest first.
unfoldable pub put_pixel : (hex_color x y : ℕ) → Screen → Screen
put_pixel color x y s =
    let a = s.framebuffer + offset s x y in
    let b = s.framebuffer + uint_32 (offset s x y + 1) in
    let c = s.framebuffer + uint_32 (offset s x y + 2) in
    record s {
      memory =
          update (update (update s.memory a (color % 256)) b (color / 256 % 256)) c
            (color / 65536 % 256);
    }

-- `get_pixel_hex`; the bytes that `FROM_RGB` joins share no bit, so that `|` adds them.
unfoldable pub get_pixel_hex : (x y : ℕ) → Screen → ℕ
get_pixel_hex x y s =
    s.memory (s.framebuffer + uint_32 (offset s x y + 2)) * 65536
    + s.memory (s.framebuffer + uint_32 (offset s x y + 1)) * 256
    + s.memory (s.framebuffer + offset s x y)

-- The loops of `draw_rectangle`, with the rounds that are left.
unfoldable pub draw_row : (rounds j color x y : ℕ) → Screen → Screen
draw_row zero j color x y s = s
draw_row (suc r) j color x y s =
    draw_row r (j + 1) color x y (put_pixel color (uint_32 (x + j)) y s)

unfoldable pub draw_rows : (rounds i color x y width : ℕ) → Screen → Screen
draw_rows zero i color x y width s = s
draw_rows (suc r) i color x y width s =
    draw_rows r (i + 1) color x y width (draw_row width 0 color x (uint_32 (y + i)) s)

-- `draw_rectangle`
unfoldable pub draw_rectangle : (color x y width height : ℕ) → Screen → Screen
draw_rectangle color x y width height s = draw_rows height 0 color x y width s

-- `drawSquare` hands its arguments on in another order.
unfoldable pub draw_square : (hex_color side_length x y : ℕ) → Screen → Screen
draw_square color side_length x y s = draw_rectangle color side_length side_length x y s

-- The loops of `put_square`, by columns.
unfoldable pub put_column : (rounds j color x y : ℕ) → Screen → Screen
put_column zero j color x y s = s
put_column (suc r) j color x y s =
    put_column r (j + 1) color x y (put_pixel color x (uint_32 (y + j)) s)

unfoldable pub put_columns : (rounds i size color x y : ℕ) → Screen → Screen
put_columns zero i size color x y s = s
put_columns (suc r) i size color x y s =
    put_columns r (i + 1) size color x y (put_column size 0 color (uint_32 (x + i)) y s)

unfoldable pub put_square : (x y size hex_color : ℕ) → Screen → Screen
put_square x y size color s = put_columns size 0 size color x y s

-- `move_one_line_up`
unfoldable pub move_one_line_up : Screen → Screen
move_one_line_up s =
    let line = uint_32 (s.size * 16) in
    let src = s.framebuffer + uint_32 (s.pitch * s.size * 16) in
    let bytes = uint_32 (s.pitch * uint_32 (s.height + (4294967296 - line))) in
    let s1 : Screen = record s { memory = memcpy s.memory s.framebuffer src bytes } in
    let s2 : Screen =
      draw_rectangle s.bg_color 0 (uint_32 (s.height + (4294967296 - line))) 1024 line s1 in
    record s2 { cursor_y = uint_32 (s2.cursor_y + (4294967296 - line)) }

-- `check_line_up`
unfoldable pub check_line_up : Screen → Screen
check_line_up s =
    let s1 : Screen =
      if leb 1024 s.cursor_x
      then record s { cursor_x = 0; cursor_y = uint_32 (s.cursor_y + s.size * 16) }
      else s in
    if leb 768 s1.cursor_y then move_one_line_up (record s1 { cursor_x = 0 }) else s1

-- `newline`
unfoldable pub newline : Screen → Screen
newline s = check_line_up (record s { cursor_x = 0; cursor_y = uint_32 (s.cursor_y + s.size * 16) })

-- The cursor of `backspace`.
unfoldable pub step_back : Screen → Screen
step_back s =
    if ltb 0 s.cursor_x
    then record s { cursor_x = uint_32 (s.cursor_x + (4294967296 - uint_32 (s.size * 8))) }
    else if ltb 0 s.cursor_y
    then record s {
      cursor_y = uint_32 (s.cursor_y + (4294967296 - uint_32 (s.size * 16)));
      cursor_x = uint_32 (1024 + (4294967296 - uint_32 (s.size * 8)));
    }
    else s

-- `backspace`
unfoldable pub backspace : Screen → Screen
backspace s =
    let s1 : Screen = step_back s in
    draw_rectangle s1.bg_color s1.cursor_x s1.cursor_y (uint_32 (s.size * 8))
      (uint_32 (s.size * 16)) s1

-- `cursorX += size*8`
unfoldable pub forward : Screen → Screen
forward s = record s { cursor_x = uint_32 (s.cursor_x + s.size * 8) }

-- `tab`; `draw_char` draws nothing for a space.
unfoldable pub forward_times : ℕ → Screen → Screen
forward_times zero s = s
forward_times (suc n) s = forward_times n (forward s)

unfoldable pub tab : Screen → Screen
tab s = forward_times (5 - s.cursor_x / uint_32 (s.size * 8) % 5) s

abbrev pub is_white_space : ℕ → Bool
is_white_space c = (c == 32) || (c == 11) || (c == 13) || (c == 7) || (c == 12)

-- The macro, which no character satisfies.
abbrev pub is_minusc : ℕ → Bool
is_minusc c = leb c b'a' && leb b'z' c

-- The part of the font where a character from 1 to 127 is looked up; others are negative.
abbrev pub glyph_start : (character : ℕ) → ℕ
glyph_start c = if is_minusc c then c - b'a' else if ltb c 33 || ltb 127 c then 3 else c - 33

-- `j < 8` with the rounds that are left: the bit `j + 1` of the byte, but for the last round, where
-- `aux` is 0.
unfoldable pub draw_bits : (rounds j byte color a y : ℕ) → Screen → Screen
draw_bits zero j byte color a y s = s
draw_bits (suc r) j byte color a y s =
    let set = ltb j 7 && (byte / 2 ^ (j + 1) % 2 == 1) in
    let s1 : Screen = if set then put_square a y s.size color s else s in
    draw_bits r (j + 1) byte color (uint_32 (a + s.size)) y s1

-- `i < 32`, with the rounds that are left.
unfoldable pub draw_bytes : (font : ℕ → ℕ) (rounds i start color x a y : ℕ) → Screen → Screen
draw_bytes font zero i start color x a y s = s
draw_bytes font (suc r) i start color x a y s =
    let next_line = (i % 2 == 0) && not (i == 0) in
    let a1 = if next_line then x else a in
    let y1 = if next_line then uint_32 (y + s.size) else y in
    let byte = font (i + start * 32) in
    let s1 : Screen = if byte % 2 == 1 then put_square a1 y1 s.size color s else s in
    let s2 : Screen = draw_bits 8 0 byte color (uint_32 (a1 + s.size)) y1 s1 in
    draw_bytes font r (i + 1) start color x (uint_32 (a1 + 9 * s.size)) y1 s2

-- `draw_char`
unfoldable pub draw_char : (font : ℕ → ℕ) (hex_color character : ℕ) → Screen → Screen
draw_char font color c s =
    if c == b' '
    then s
    else draw_bytes font 32 0 (glyph_start c) color s.cursor_x s.cursor_x s.cursor_y s

-- `character`
unfoldable pub character : (font : ℕ → ℕ) (hex_color c : ℕ) → Screen → Screen
character font color c s =
    if c == 8
    then backspace s
    else if is_white_space c
    then forward s
    else if c == 10
    then newline s
    else if c == 9
    then tab s
    else forward (draw_char font color c (check_line_up s))

-- `draw_word_color`
unfoldable pub draw_word_color : (font : ℕ → ℕ) (hex_color : ℕ) (word : List ℕ) → Screen → Screen
draw_word_color font color [] s = s
draw_word_color font color (c ∷ cs) s = draw_word_color font color cs (character font color c s)
