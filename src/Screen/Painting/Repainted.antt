-- ===== src/Screen/Painting/Repainted.antt =====
-- What `paint_screen` of Kernel/drivers/videoDriver.c leaves on the screen.
use boke_os.Base.{
  ℕ, zero, suc, ◌+◌, ◌*◌, ◌%◌, ◌≤◌, ◌≡◌, refl, ◌∙◌, inl, inr, true, false, Bool-cases, ap, ◌&&◌,
  ◌==◌, ltb, leb, if◌then◌else◌, arith,
}
use boke_os.Screen.{Screen, put_pixel, get_pixel_hex}
use boke_os.Screen.Pixels.{IsVisible, rows_apart, put_pixel_lem, put_pixel-pitch}
use boke_os.Screen.Painting.{each_of_column, each_of_columns, is_kept, repaint, paint_screen}

-- A step that changes the pixel that it is given, by a function of what the pixel was, and nothing else
-- of what is visible.
record Pixelwise (step : ℕ → ℕ → Screen → Screen) (change : ℕ → ℕ) : Type 0 where
  at_pixel :
      (x y px py : ℕ) (s : Screen)
      → IsVisible s x y
      → IsVisible s px py
      → get_pixel_hex px py (step x y s)
        ≡ (if (px == x) && (py == y) then change (get_pixel_hex px py s) else get_pixel_hex px py s)
  same_pitch : (x y : ℕ) (s : Screen) → (step x y s).pitch ≡ s.pitch

-- The colour of a pixel after `paint_screen`.
abbrev pub repainted : (hex_color p : ℕ) → ℕ
repainted color p = if is_kept p then p else color % 16777216

repaint-keep :
    (color x y : ℕ) (s : Screen) → is_kept (get_pixel_hex x y s) ≡ true → repaint color x y s ≡ s
unfolding repaint
repaint-keep color x y s e = rw e refl

repaint-put :
    (color x y : ℕ) (s : Screen)
    → is_kept (get_pixel_hex x y s) ≡ false
    → repaint color x y s ≡ put_pixel color x y s
unfolding repaint
repaint-put color x y s e = rw e refl

repaint-pitch : (color x y : ℕ) (s : Screen) → (repaint color x y s).pitch ≡ s.pitch
repaint-pitch color x y s = elim (Bool-cases (is_kept (get_pixel_hex x y s))) [
  | inl e ↦ rw (repaint-keep color x y s e) refl
  | inr e ↦ rw (repaint-put color x y s e) (put_pixel-pitch color x y s)
]

-- The pixel itself, where it is kept and where it is not.
kept :
    (color x y px py : ℕ) (s : Screen)
    → is_kept (get_pixel_hex x y s) ≡ true
    → get_pixel_hex px py s ≡ (
        if (px == x) && (py == y)
        then repainted color (get_pixel_hex px py s)
        else get_pixel_hex px py s)
kept color x y px py s e = elim (Bool-cases ((px == x) && (py == y))) [
  | inr g ↦ rw g refl
  | inl g ↦
      let at_x : px ≡ x = ground (arith, g) in
      let at_y : py ≡ y = ground (arith, g) in
      let here : is_kept (get_pixel_hex px py s) ≡ true = rw (at_x, at_y) e in rw g (rw here refl)
]

changed :
    (color x y px py : ℕ) (s : Screen)
    → is_kept (get_pixel_hex x y s) ≡ false
    → (if (px == x) && (py == y) then color % 16777216 else get_pixel_hex px py s) ≡ (
        if (px == x) && (py == y)
        then repainted color (get_pixel_hex px py s)
        else get_pixel_hex px py s)
changed color x y px py s e = elim (Bool-cases ((px == x) && (py == y))) [
  | inr g ↦ rw g refl
  | inl g ↦
      let at_x : px ≡ x = ground (arith, g) in
      let at_y : py ≡ y = ground (arith, g) in
      let here : is_kept (get_pixel_hex px py s) ≡ false = rw (at_x, at_y) e in rw g (rw here refl)
]

repaint_lem :
    (color x y px py : ℕ) (s : Screen)
    → IsVisible s x y
    → IsVisible s px py
    → get_pixel_hex px py (repaint color x y s) ≡ (
        if (px == x) && (py == y)
        then repainted color (get_pixel_hex px py s)
        else get_pixel_hex px py s)
repaint_lem color x y px py s h k = elim (Bool-cases (is_kept (get_pixel_hex x y s))) [
  | inl e ↦ ap (get_pixel_hex px py) (repaint-keep color x y s e) ∙ kept color x y px py s e
  | inr e ↦
      ap (get_pixel_hex px py) (repaint-put color x y s e)
      ∙ put_pixel_lem color x y px py s h k
      ∙ changed color x y px py s e
]

repaint-Pixelwise : (color : ℕ) → Pixelwise (repaint color) (repainted color)
repaint-Pixelwise color = record { at_pixel = repaint_lem color; same_pitch = repaint-pitch color }

module _ (step : ℕ → ℕ → Screen → Screen) (change : ℕ → ℕ) (w : Pixelwise step change) where
  column-pitch : (r x y : ℕ) (s : Screen) → (each_of_column step r x y s).pitch ≡ s.pitch
  unfolding each_of_column
  column-pitch zero x y s = refl
  column-pitch (suc r) x y s = column-pitch r x (y + 1) (step x y s) ∙ w.same_pitch x y s

  column_lem :
      (r x y px py : ℕ) (s : Screen)
      → x * 3 + 3 ≤ s.pitch
      → s.pitch * (y + r) ≤ 4294967296
      → IsVisible s px py
      → get_pixel_hex px py (each_of_column step r x y s) ≡ (
          if (px == x) && leb y py && ltb py (y + r)
          then change (get_pixel_hex px py s)
          else get_pixel_hex px py s)
  unfolding each_of_column
  column_lem zero x y px py s h v k = ground arith
  column_lem (suc r) x y px py s h v k =
      let pitch = w.same_pitch x y s in
      let same : y + 1 + r ≡ y + suc r = omega arith in
      let inside : s.pitch * y + s.pitch ≤ 4294967296 =
        omega (arith, v, rows_apart s.pitch y (y + suc r) (omega arith)) in
      let rest =
        column_lem r x (y + 1) px py (step x y s) (rw pitch h) (rw pitch (rw same v))
          (rw pitch k) in
      let first = w.at_pixel x y px py s (h, inside) k in ground (arith, rest, first)

  columns_lem :
      (r height x px py : ℕ) (s : Screen)
      → (x + r) * 3 ≤ s.pitch
      → s.pitch * height ≤ 4294967296
      → IsVisible s px py
      → get_pixel_hex px py (each_of_columns step r height x s) ≡ (
          if leb x px && ltb px (x + r) && ltb py height
          then change (get_pixel_hex px py s)
          else get_pixel_hex px py s)
  unfolding each_of_columns
  columns_lem zero height x px py s h v k = ground arith
  columns_lem (suc r) height x px py s h v k =
      let s1 : Screen = each_of_column step height x 0 s in
      let pitch = column-pitch height x 0 s in
      let rest =
        columns_lem r height (x + 1) px py s1 (rw pitch (omega (arith, h))) (rw pitch v)
          (rw pitch k) in
      let from_top : 0 + height ≡ height = omega arith in
      let first = column_lem height x 0 px py s (omega (arith, h)) (rw from_top v) k in
      ground (arith, rest, first)

-- `paint_screen` on a frame buffer that holds the lines of the screen gives each pixel of the screen the
-- colour, unless it has the colour of the font or RED, which it keeps, and leaves the pixels beside the
-- screen as they are.
pub paint_screen-repainted :
    (color px py : ℕ) (s : Screen)
    → s.width * 3 ≤ s.pitch
    → s.pitch * s.height ≤ 4294967296
    → IsVisible s px py
    → get_pixel_hex px py (paint_screen color s) ≡ (
        if ltb px s.width && ltb py s.height
        then repainted color (get_pixel_hex px py s)
        else get_pixel_hex px py s)
unfolding paint_screen get_pixel_hex
paint_screen-repainted color px py s h v k =
    let from_left : 0 + s.width ≡ s.width = omega arith in
    let painted =
      columns_lem (repaint color) (repainted color) (repaint-Pixelwise color) s.width s.height 0 px
        py (record s { bg_color = color }) (rw from_left h) v k in
    ground (arith, painted)
