-- ===== src/Userland/Commands/Filters.antt =====
-- The commands that read to the end of their input: `filter`, `wc` and `cat` of commands.c, and
-- `find_color`. Input and output are lists of characters; input that ends without an EOF leaves the
-- process waiting, `none`. `print("%s", comm)` prints the characters before the first zero.
use boke_os.Base.{
  ℕ, ◌+◌, Bool, ◌||◌, Option, none, some, List, [], ◌∷◌, ◌++◌, ◌==◌, ltb, if◌then◌else◌,
}
use mathlib.Core.Option
use boke_os.Base.Run.{Run, ok, fault, out_of_fuel, ◌>>=◌}
use boke_os.Userland.Utils.{strcmp}
use boke_os.Userland.Commands.Words.{row_from}
use boke_os.Userland.Commands.Table.{is_zero, command_len}

-- `is_vowel`
unfoldable pub is_vowel : ℕ → Bool
is_vowel c =
    c == b'a'
    || c == b'e'
    || c == b'i'
    || c == b'o'
    || c == b'u'
    || c == b'A'
    || c == b'E'
    || c == b'I'
    || c == b'O'
    || c == b'U'

-- `filter`: what it prints.
unfoldable pub filter : List ℕ → Option (List ℕ)
filter [] = none
filter (c ∷ cs) =
    let rest = filter cs in
    if c == 1 then some (10 ∷ []) else if is_vowel c then rest else Option.map (λ out. c ∷ out) rest

-- The loop of `wc` with the lines counted so far: what it prints, and the number of lines.
unfoldable pub wc_from : ℕ → List ℕ → Option (List ℕ × ℕ)
wc_from lines [] = none
wc_from lines (c ∷ cs) =
    let rest = wc_from (if c == 10 then lines + 1 else lines) cs in
    if c == 1 then some (10 ∷ [], lines) else Option.map (λ r. (c ∷ r.0, r.1)) rest

-- `wc`, before the line that tells the number.
unfoldable pub wc : List ℕ → Option (List ℕ × ℕ)
wc cs = wc_from 1 cs

-- `comm[i] = c` of `cat`, with `MAX_COMMAND_LENGTH` 256.
abbrev write_comm : (ℕ → ℕ) → ℕ → ℕ → Run (ℕ → ℕ)
write_comm comm i c = if ltb i 256 then ok (λ k. if k == i then c else comm k) else fault

-- The loop of `cat` with `comm` and `i`. Input that ends without an EOF is `out_of_fuel`.
unfoldable pub cat_from : (ℕ → ℕ) → ℕ → List ℕ → Run (List ℕ)
cat_from comm i [] = out_of_fuel
cat_from comm i (c ∷ cs) =
    let next = λ (comm' : ℕ → ℕ) (i' : ℕ). cat_from comm' i' cs in
    if c == 1
    then ok (c ∷ [])
    else (write_comm comm i c >>= λ comm'.
        if c == 10
        then (write_comm comm' (i + 1) 0 >>= λ comm''. write_comm comm'' 0 0 >>= λ emptied.
            next emptied 0 >>= λ out. ok (c ∷ row_from 256 comm'' 0 ++ 10 ∷ out))
        else (next comm' (i + 1) >>= λ out. ok (c ∷ out)))

-- `cat`
unfoldable pub cat : List ℕ → Run (List ℕ)
cat cs = cat_from (λ _. 0) 0 cs

-- `hex_arr` and the colour that `setbg_enum` paints for each of its names.
abbrev pub hex_arr : List (List ℕ)
hex_arr =
    (b'G' ∷ b'R' ∷ b'E' ∷ b'E' ∷ b'N' ∷ [])
    ∷ (b'B' ∷ b'L' ∷ b'U' ∷ b'E' ∷ [])
    ∷ (b'B' ∷ b'L' ∷ b'A' ∷ b'C' ∷ b'K' ∷ [])
    ∷ (b'Y' ∷ b'E' ∷ b'L' ∷ b'L' ∷ b'O' ∷ b'W' ∷ [])
    ∷ (b'O' ∷ b'R' ∷ b'A' ∷ b'N' ∷ b'G' ∷ b'E' ∷ [])
    ∷ []

-- `setbg_enum`: the colour that is painted; `none` paints nothing.
unfoldable pub setbg_enum : ℕ → Option ℕ
setbg_enum i =
    if i == 0
    then some 65280
    else if i == 1
    then some 255
    else if i == 2
    then some 0
    else if i == 3
    then some 16776960
    else if i == 4
    then some 16753920
    else none

-- The loop of `find_color` over the rows from `i` on, up to `COMMAND_LEN`: a row behind the table is
-- read outside it.
unfoldable pub find_color_from : List (List ℕ) → ℕ → List ℕ → Run (Option ℕ)
find_color_from [] i color = if ltb i command_len then fault else ok none
find_color_from (name ∷ names) i color =
    let rest = find_color_from names (i + 1) color in
    if ltb i command_len
    then (if is_zero (strcmp name color) then ok (setbg_enum i) else rest)
    else ok none

-- `find_color`
unfoldable pub find_color : List ℕ → Run (Option ℕ)
find_color color = find_color_from hex_arr 0 color
