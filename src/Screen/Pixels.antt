-- ===== src/Screen/Pixels.antt =====
-- Pixels of Kernel/drivers/videoDriver.c: what is drawn is read back, and nothing else changes.
use boke_os.Base.{
  ℕ, zero, suc, ◌+◌, ◌*◌, ◌%◌, ◌≤◌, ◌<◌, ◌≡◌, ◌≢◌, refl, ap, inl, inr, ◌⊎◌, Bool-cases, ◌&&◌, ◌==◌,
  ltb, leb, if◌then◌else◌, arith,
}
use native.Mathlib.Nat.{mod-eq_of_lt, mul-le-mul_left, mul-le-mul_right, mul-suc}
use boke_os.Screen.{
  Screen, offset, uint_32, put_pixel, get_pixel_hex, draw_row, draw_rows, draw_rectangle,
}

-- A pixel in a row of the pitch, in the part of the frame buffer that an offset of 32 bits reaches.
abbrev pub IsVisible : Screen → (x y : ℕ) → Type 0
IsVisible s x y = (x * 3 + 3 ≤ s.pitch) × (s.pitch * y + s.pitch ≤ 4294967296)

-- Rows do not overlap.
pub rows_apart : (p y z : ℕ) → y < z → p * y + p ≤ p * z
rows_apart p y z h = omega (arith, mul-le-mul_left p h, mul-suc p y)

offset_small : (s : Screen) (x y : ℕ) → IsVisible s x y → offset s x y ≡ s.pitch * y + x * 3
offset_small s x y h = mod-eq_of_lt (omega (arith, h))

-- Different pixels have no byte in common.
pixels_apart :
    (p x y x' y' : ℕ)
    → x * 3 + 3 ≤ p
    → x' * 3 + 3 ≤ p
    → (x ≢ x') ⊎ (y ≢ y')
    → (p * y + x * 3 + 3 ≤ p * y' + x' * 3) ⊎ (p * y' + x' * 3 + 3 ≤ p * y + x * 3)
pixels_apart p x y x' y' h k other = elim (Bool-cases (ltb y y')) [
  | inl above ↦ inl (omega (arith, rows_apart p y y' (ground arith)))
  | inr not_above ↦ elim (Bool-cases (ltb y' y)) [
    | inl below ↦ inr (omega (arith, rows_apart p y' y (ground arith)))
    | inr same_row ↦
        let row : y ≡ y' = ground arith in
        let line : p * y ≡ p * y' = ap (λ z. p * z) row in ground (arith, line, row, other)
  ]
]

get-put :
    (color x y : ℕ) (s : Screen)
    → IsVisible s x y
    → get_pixel_hex x y (put_pixel color x y s) ≡ color % 16777216
unfolding put_pixel get_pixel_hex
get-put color x y s h = ground (arith, offset_small s x y h)

get-put_other :
    (color x y x' y' : ℕ) (s : Screen)
    → IsVisible s x y
    → IsVisible s x' y'
    → (x ≢ x') ⊎ (y ≢ y')
    → get_pixel_hex x' y' (put_pixel color x y s) ≡ get_pixel_hex x' y' s
unfolding put_pixel get_pixel_hex
get-put_other color x y x' y' s h k other = ground (
  arith,
  offset_small s x y h,
  offset_small s x' y' k,
  pixels_apart s.pitch x y x' y' h.0 k.0 other,
)

-- A pixel behind `put_pixel`.
pub put_pixel_lem :
    (color x y px py : ℕ) (s : Screen)
    → IsVisible s x y
    → IsVisible s px py
    → get_pixel_hex px py (put_pixel color x y s)
      ≡ (if (px == x) && (py == y) then color % 16777216 else get_pixel_hex px py s)
put_pixel_lem color x y px py s h k = elim (Bool-cases (px == x)) [
  | inr left_right ↦
      rw left_right (get-put_other color x y px py s h k (inl (λ e. ground (arith, e, left_right))))
  | inl column ↦ elim (Bool-cases (py == y)) [
    | inr up_down ↦
        rw column
          (rw up_down (get-put_other color x y px py s h k (inr (λ e. ground (arith, e, up_down)))))
    | inl row ↦
        let at_x : px ≡ x = ground (arith, column) in
        let at_y : py ≡ y = ground (arith, row) in
        rw column (rw row (rw at_x (rw at_y (get-put color x y s h))))
  ]
]

pub put_pixel-pitch : (color x y : ℕ) (s : Screen) → (put_pixel color x y s).pitch ≡ s.pitch
unfolding put_pixel
put_pixel-pitch color x y s = refl

draw_row-pitch : (r j color x y : ℕ) (s : Screen) → (draw_row r j color x y s).pitch ≡ s.pitch
unfolding draw_row put_pixel
draw_row-pitch zero j color x y s = refl
draw_row-pitch (suc r) j color x y s =
    draw_row-pitch r (j + 1) color x y (put_pixel color (uint_32 (x + j)) y s)

draw_row_lem :
    (r j color x y px py : ℕ) (s : Screen)
    → (x + j + r) * 3 ≤ s.pitch
    → s.pitch * y + s.pitch ≤ 4294967296
    → IsVisible s px py
    → get_pixel_hex px py (draw_row r j color x y s) ≡ (
        if (py == y) && leb (x + j) px && ltb px (x + j + r)
        then color % 16777216
        else get_pixel_hex px py s)
unfolding draw_row
draw_row_lem zero j color x y px py s w h k = ground arith
draw_row_lem (suc r) j color x y px py s w h k =
    let s1 : Screen = put_pixel color (uint_32 (x + j)) y s in
    let pitch : s1.pitch ≡ s.pitch = put_pixel-pitch color (uint_32 (x + j)) y s in
    let at : uint_32 (x + j) ≡ x + j = mod-eq_of_lt (omega (arith, w, h)) in
    let rest =
      draw_row_lem r (j + 1) color x y px py s1 (rw pitch (omega (arith, w))) (rw pitch h)
        (rw pitch k) in
    let first = put_pixel_lem color (uint_32 (x + j)) y px py s (rw at (omega (arith, w), h)) k in
    ground (arith, rest, first, at)

-- A row that the offset reaches has a number of 32 bits.
row_small : (p y : ℕ) → 3 ≤ p → p * y + p ≤ 4294967296 → y < 4294967296
row_small p y h k = omega (arith, k, mul-le-mul_right y h)

draw_rows_lem :
    (r i color x y w px py : ℕ) (s : Screen)
    → (x + w) * 3 ≤ s.pitch
    → s.pitch * (y + i + r) ≤ 4294967296
    → IsVisible s px py
    → get_pixel_hex px py (draw_rows r i color x y w s) ≡ (
        if leb (y + i) py && ltb py (y + i + r) && leb x px && ltb px (x + w)
        then color % 16777216
        else get_pixel_hex px py s)
unfolding draw_rows
draw_rows_lem zero i color x y w px py s wide tall k = ground arith
draw_rows_lem (suc r) i color x y w px py s wide tall k =
    let inside : s.pitch * (y + i) + s.pitch ≤ 4294967296 =
      omega (arith, tall, rows_apart s.pitch (y + i) (y + i + suc r) (omega arith)) in
    let at : uint_32 (y + i) ≡ y + i =
      mod-eq_of_lt (row_small s.pitch (y + i) (omega (arith, k)) inside) in
    let s1 : Screen = draw_row w 0 color x (uint_32 (y + i)) s in
    let pitch : s1.pitch ≡ s.pitch = draw_row-pitch w 0 color x (uint_32 (y + i)) s in
    let same : y + suc i + r ≡ y + i + suc r = omega arith in
    let next : y + (i + 1) + r ≡ y + i + suc r = omega arith in
    let rest =
      draw_rows_lem r (i + 1) color x y w px py s1 (rw pitch wide) (rw pitch (rw next tall))
        (rw pitch k) in
    let first =
      draw_row_lem w 0 color x (uint_32 (y + i)) px py s (omega (arith, wide)) (rw at inside) k in
    ground (arith, rest, first, at)

-- `draw_rectangle` within the lines and the rows of the frame buffer gives its pixels the colour, and leaves
-- every other pixel of them as it is.
draw_rectangle-get_pixel_hex :
    (color x y w h px py : ℕ) (s : Screen)
    → (x + w) * 3 ≤ s.pitch
    → s.pitch * (y + h) ≤ 4294967296
    → IsVisible s px py
    → get_pixel_hex px py (draw_rectangle color x y w h s) ≡ (
        if leb y py && ltb py (y + h) && leb x px && ltb px (x + w)
        then color % 16777216
        else get_pixel_hex px py s)
unfolding draw_rectangle
draw_rectangle-get_pixel_hex color x y w h px py s wide tall k =
    let same : y + 0 + h ≡ y + h = omega arith in
    let rows = draw_rows_lem h 0 color x y w px py s wide (rw same tall) k in ground (arith, rows)
