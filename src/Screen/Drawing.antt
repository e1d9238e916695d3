-- ===== src/Screen/Drawing.antt =====
-- Drawing in Kernel/drivers/videoDriver.c leaves the cursor where it is.
use boke_os.Base.{
  ℕ, zero, suc, ◌+◌, ◌*◌, ◌/◌, ◌%◌, ◌^◌, ◌≡◌, refl, ◌∙◌, inl, inr, Bool, true, false, Bool-cases,
  not, ◌&&◌, ◌==◌, ltb, if◌then◌else◌,
}
use boke_os.Screen.{
  Screen, put_pixel, draw_row, draw_rows, draw_rectangle, put_column, put_columns, put_square,
  draw_bits, draw_bytes, draw_char, uint_32, glyph_start,
}

-- The cursor and the font size are the same.
pub record SameCursor (s t : Screen) : Type 0 where
  pub at_x : t.cursor_x ≡ s.cursor_x
  pub at_y : t.cursor_y ≡ s.cursor_y
  pub at_size : t.size ≡ s.size

unmoved : (s : Screen) → SameCursor s s
unmoved s = record { at_x = refl; at_y = refl; at_size = refl }

then_same : {s t u : Screen} → SameCursor s t → SameCursor t u → SameCursor s u
then_same h k = record {
  at_x = k.at_x ∙ h.at_x;
  at_y = k.at_y ∙ h.at_y;
  at_size = k.at_size ∙ h.at_size;
}

put_pixel-Same : (color x y : ℕ) (s : Screen) → SameCursor s (put_pixel color x y s)
unfolding put_pixel
put_pixel-Same color x y s = record { at_x = refl; at_y = refl; at_size = refl }

draw_row-Same : (r j color x y : ℕ) (s : Screen) → SameCursor s (draw_row r j color x y s)
unfolding draw_row
draw_row-Same zero j color x y s = unmoved s
draw_row-Same (suc r) j color x y s =
    then_same (put_pixel-Same color (uint_32 (x + j)) y s) (draw_row-Same r (j + 1) color x y _)

draw_rows-Same : (r i color x y w : ℕ) (s : Screen) → SameCursor s (draw_rows r i color x y w s)
unfolding draw_rows
draw_rows-Same zero i color x y w s = unmoved s
draw_rows-Same (suc r) i color x y w s =
    then_same (draw_row-Same w 0 color x (uint_32 (y + i)) s)
      (draw_rows-Same r (i + 1) color x y w _)

pub draw_rectangle-Same :
    (color x y w h : ℕ) (s : Screen) → SameCursor s (draw_rectangle color x y w h s)
unfolding draw_rectangle
draw_rectangle-Same color x y w h s = draw_rows-Same h 0 color x y w s

put_column-Same : (r j color x y : ℕ) (s : Screen) → SameCursor s (put_column r j color x y s)
unfolding put_column
put_column-Same zero j color x y s = unmoved s
put_column-Same (suc r) j color x y s =
    then_same (put_pixel-Same color x (uint_32 (y + j)) s) (put_column-Same r (j + 1) color x y _)

put_columns-Same :
    (r i size color x y : ℕ) (s : Screen) → SameCursor s (put_columns r i size color x y s)
unfolding put_columns
put_columns-Same zero i size color x y s = unmoved s
put_columns-Same (suc r) i size color x y s =
    then_same (put_column-Same size 0 color (uint_32 (x + i)) y s)
      (put_columns-Same r (i + 1) size color x y _)

square_if :
    (b : Bool) (x y size color : ℕ) (s : Screen)
    → SameCursor s (if b then put_square x y size color s else s)
unfolding put_square
square_if true x y size color s = put_columns-Same size 0 size color x y s
square_if false x y size color s = unmoved s

draw_bits-Same :
    (r j byte color a y : ℕ) (s : Screen) → SameCursor s (draw_bits r j byte color a y s)
unfolding draw_bits
draw_bits-Same zero j byte color a y s = unmoved s
draw_bits-Same (suc r) j byte color a y s =
    then_same (square_if (ltb j 7 && (byte / 2 ^ (j + 1) % 2 == 1)) a y s.size color s)
      (draw_bits-Same r (j + 1) byte color (uint_32 (a + s.size)) y _)

draw_bytes-Same :
    (font : ℕ → ℕ) (r i start color x a y : ℕ) (s : Screen)
    → SameCursor s (draw_bytes font r i start color x a y s)
unfolding draw_bytes
draw_bytes-Same font zero i start color x a y s = unmoved s
draw_bytes-Same font (suc r) i start color x a y s =
    let next_line = (i % 2 == 0) && not (i == 0) in
    let a1 = if next_line then x else a in
    let y1 = if next_line then uint_32 (y + s.size) else y in
    let byte = font (i + start * 32) in
    then_same (square_if (byte % 2 == 1) a1 y1 s.size color s) (
      then_same (draw_bits-Same 8 0 byte color (uint_32 (a1 + s.size)) y1 _)
        (draw_bytes-Same font r (i + 1) start color x (uint_32 (a1 + 9 * s.size)) y1 _))

pub draw_char-Same :
    (font : ℕ → ℕ) (color c : ℕ) (s : Screen) → SameCursor s (draw_char font color c s)
unfolding draw_char
draw_char-Same font color c s = elim (Bool-cases (c == b' ')) [
  | inl space ↦ rw (space, draw_char) (unmoved s)
  | inr other ↦
      rw (other, draw_char)
        (draw_bytes-Same font 32 0 (glyph_start c) color s.cursor_x s.cursor_x s.cursor_y s)
]
