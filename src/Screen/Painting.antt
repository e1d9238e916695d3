-- ===== src/Screen/Painting.antt =====
-- The loops of Kernel/drivers/videoDriver.c over the whole screen, the ball, and the words that are drawn at
-- a place, to a length or to a width.
pub mod Repainted
use boke_os.Base.{
  ℕ, zero, suc, ◌+◌, ◌-◌, ◌*◌, ◌/◌, Bool, ◌||◌, List, [], ◌∷◌, length, ◌==◌, leb, if◌then◌else◌,
}
use boke_os.Screen.{Screen, uint_32, put_pixel, get_pixel_hex, character, draw_word_color}

-- The loops of `clear_color` and `paint_screen`, with the rounds that are left: the columns from the
-- left, each from the top.
unfoldable pub each_of_column : (step : ℕ → ℕ → Screen → Screen) (rounds x y : ℕ) → Screen → Screen
each_of_column step zero x y s = s
each_of_column step (suc r) x y s = each_of_column step r x (y + 1) (step x y s)

unfoldable pub each_of_columns :
    (step : ℕ → ℕ → Screen → Screen) (rounds height x : ℕ) → Screen → Screen
each_of_columns step zero height x s = s
each_of_columns step (suc r) height x s =
    each_of_columns step r height (x + 1) (each_of_column step height x 0 s)

-- `clear_color`
unfoldable pub clear_color : (hex_color : ℕ) → Screen → Screen
clear_color color s = record (each_of_columns (put_pixel color) s.width s.height 0 s) {
  cursor_x = 0;
  cursor_y = 0;
}

-- `clear`
unfoldable pub clear : Screen → Screen
clear s = clear_color s.bg_color s

-- A colour that `paint_screen` leaves, `font_color` or RED. `font_color` is 0xFFFFFF, and nothing sets
-- it.
unfoldable pub is_kept : ℕ → Bool
is_kept p = (p == 0xFFFFFF) || (p == 0xFF0000)

-- One pixel of `paint_screen`.
unfoldable pub repaint : (hex_color x y : ℕ) → Screen → Screen
repaint color x y s = if is_kept (get_pixel_hex x y s) then s else put_pixel color x y s

-- `paint_screen`
unfoldable pub paint_screen : (hex_color : ℕ) → Screen → Screen
paint_screen color s =
    each_of_columns (repaint color) s.width s.height 0 (record s { bg_color = color })

-- `fill_section`, by rows, with the rounds that are left.
unfoldable pub fill_line : (rounds hex_color x y : ℕ) → Screen → Screen
fill_line zero color x y s = s
fill_line (suc r) color x y s = fill_line r color (x + 1) y (put_pixel color x y s)

unfoldable pub fill_lines : (rounds hex_color y : ℕ) → Screen → Screen
fill_lines zero color y s = s
fill_lines (suc r) color y s = fill_lines r color (y + 1) (fill_line s.width color 0 y s)

unfoldable pub fill_section : (hex_color start_y end_y : ℕ) → Screen → Screen
fill_section color start_y end_y s = fill_lines (end_y - start_y) color start_y s

-- `boke`: the flag of blue, yellow and blue.
unfoldable pub boke : Screen → Screen
boke s =
    let height = s.height / 3 in
    fill_section 0x0000FF (height * 2) s.height
      (fill_section 0xFFFF00 height (height * 2) (fill_section 0x0000FF 0 height s))

-- The loops of `draw_ball` from `-radius` on, counted from 0, with the rounds that are left.
abbrev pub distance : (n m : ℕ) → ℕ
distance n m = (n - m) + (m - n)

unfoldable pub ball_line : (rounds i j radius color x y : ℕ) → Screen → Screen
ball_line zero i j radius color x y s = s
ball_line (suc r) i j radius color x y s =
    let dx = distance i radius in
    let dy = distance j radius in
    let s1 : Screen =
      if leb (dx * dx + dy * dy) (radius * radius)
      then put_pixel color (uint_32 (x + i)) (uint_32 (y + j)) s
      else s in
    ball_line r (i + 1) j radius color x y s1

unfoldable pub ball_lines : (rounds j radius color x y : ℕ) → Screen → Screen
ball_lines zero j radius color x y s = s
ball_lines (suc r) j radius color x y s =
    ball_lines r (j + 1) radius color x y (ball_line (2 * radius + 1) 0 j radius color x y s)

-- `draw_ball`, for a `size` whose square is an `int`; `center_x + x` is the left edge and `i`.
unfoldable pub draw_ball : (hex_color size x y : ℕ) → Screen → Screen
draw_ball color size x y s = ball_lines (2 * (size / 2) + 1) 0 (size / 2) color x y s

-- `character_at`
unfoldable pub character_at : (font : ℕ → ℕ) (hex_color c x y : ℕ) → Screen → Screen
character_at font color c x y s =
    record (character font color c (record s { cursor_x = x; cursor_y = y })) {
      cursor_x = s.cursor_x;
      cursor_y = s.cursor_y;
    }

-- `draw_word_colorAt`
unfoldable pub draw_word_color_at :
    (font : ℕ → ℕ) (hex_color : ℕ) (word : List ℕ) (x y : ℕ) → Screen → Screen
draw_word_color_at font color word x y s =
    record (draw_word_color font color word (record s { cursor_x = x; cursor_y = y })) {
      cursor_x = s.cursor_x;
      cursor_y = s.cursor_y;
    }

-- `draw_word_colorLen`
unfoldable pub draw_word_color_len :
    (font : ℕ → ℕ) (color : ℕ) (buff : List ℕ) (len : ℕ) → Screen → Screen
draw_word_color_len font color [] len s = s
draw_word_color_len font color (c ∷ cs) zero s = s
draw_word_color_len font color (c ∷ cs) (suc n) s =
    draw_word_color_len font color cs n (character font color c s)

-- `draw_word` and `draw_word_len`
unfoldable pub draw_word : (font : ℕ → ℕ) (word : List ℕ) → Screen → Screen
draw_word font word s = draw_word_color font 0xFFFFFF word s

unfoldable pub draw_word_len : (font : ℕ → ℕ) (buff : List ℕ) (len : ℕ) → Screen → Screen
draw_word_len font buff len s = draw_word_color_len font 0xFFFFFF buff len s

-- The spaces of `draw_word_padded`, with the rounds that are left.
unfoldable pub draw_spaces : (font : ℕ → ℕ) (rounds hex_color : ℕ) → Screen → Screen
draw_spaces font zero color s = s
draw_spaces font (suc r) color s = draw_spaces font r color (character font color 32 s)

-- `draw_word_padded`
unfoldable pub draw_word_padded :
    (font : ℕ → ℕ) (hex_color : ℕ) (word : List ℕ) (width : ℕ) → Screen → Screen
draw_word_padded font color word width s =
    draw_spaces font (width - length word) color (draw_word_color font color word s)
