-- ===== src/Screen/Tests.antt =====
-- A screen of Kernel/drivers/videoDriver.c: 1024 by 768 pixels of three bytes, with the cursor at the last
-- cell of the first row.
use boke_os.Base.{◌&&◌, [], ◌∷◌, ltb, if◌then◌else◌, ◌≡◌, arith}
use boke_os.Screen.{Screen, get_pixel_hex, draw_word_color, check_line_up}
use boke_os.Screen.Painting.{paint_screen}
use boke_os.Screen.Painting.Repainted.{repainted, paint_screen-repainted}
use boke_os.Screen.Cursor.{IsFitted, OnScreen, draw_word_color-OnScreen}

abbrev blank : Screen
blank = record {
  memory = λ a. 0;
  framebuffer = 0xFD000000;
  pitch = 3072;
  width = 1024;
  height = 768;
  bg_color = 0;
  cursor_x = 1008;
  cursor_y = 0;
  size = 2;
}

draw_word_color-OnScreen_example :
    IsFitted (draw_word_color (λ i. 255) 0xFFFFFF (b'a' ∷ 10 ∷ 8 ∷ b'b' ∷ []) blank)
    × OnScreen
        (check_line_up (draw_word_color (λ i. 255) 0xFFFFFF (b'a' ∷ 10 ∷ 8 ∷ b'b' ∷ []) blank))
draw_word_color-OnScreen_example =
    draw_word_color-OnScreen (λ i. 255) 0xFFFFFF (b'a' ∷ 10 ∷ 8 ∷ b'b' ∷ []) blank (omega arith)

paint_screen-repainted_example : get_pixel_hex 5 6 (paint_screen 0x00FF00 blank) ≡ (
    if ltb 5 1024 && ltb 6 768
    then repainted 0x00FF00 (get_pixel_hex 5 6 blank)
    else get_pixel_hex 5 6 blank)
paint_screen-repainted_example =
    paint_screen-repainted 0x00FF00 5 6 blank (omega arith) (omega arith) (omega arith)
