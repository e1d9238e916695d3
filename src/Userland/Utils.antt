-- ===== src/Userland/Utils.antt =====
-- Userland/SampleCodeModule/utils.c. A string is the list of its characters before the terminator, each
-- from 1 to 127; what a routine prints is the list of the characters that it passes to `put_c`, and
-- what it reads comes from the list of the characters that `get_c` will give.
-- `int` values are integers: a sum that leaves the range of `int` is undefined in C, and the theorems
-- speak of values inside the range.
pub mod Compare
pub mod Numbers
pub mod Print
pub mod Scan
mod Tests
use boke_os.Base.{
  ℕ, zero, suc, ◌+◌, ◌-◌, ◌*◌, ◌/◌, ◌%◌, Bool, true, false, not, ◌&&◌, ◌||◌, Option, none, some,
  List, [], ◌∷◌, ◌++◌, ◌==◌, ltb, leb, if◌then◌else◌, length, drop,
}
use boke_os.Base.Int.{ℤ, pos, negsuc}
use boke_os.Base.Swap.{swap_ends}

-- `null_or_space`, `null_or_newline` and `isspace`
abbrev pub null_or_space : ℕ → Bool
null_or_space c = (c == 0) || (c == b' ')

abbrev pub null_or_newline : ℕ → Bool
null_or_newline c = (c == 0) || (c == b'\n')

abbrev pub isspace : ℕ → Bool
isspace c = (c == b' ') || (c == b'\n') || (c == 0)

-- `strcmp`
unfoldable pub strcmp : List ℕ → List ℕ → ℤ
strcmp [] [] = pos 0
strcmp [] (d ∷ ds) = negsuc 0
strcmp (c ∷ cs) [] = pos 1
strcmp (c ∷ cs) (d ∷ ds) =
    let rest = strcmp cs ds in if ltb d c then pos 1 else if ltb c d then negsuc 0 else rest

-- `strncmp`, with the rounds that are left: at the end of a string before `n` characters it is not 0,
-- also where both strings end.
unfoldable pub strncmp : List ℕ → List ℕ → (n : ℕ) → ℤ
strncmp cs ds zero = pos 0
strncmp [] ds (suc n) = negsuc 0
strncmp (c ∷ cs) [] (suc n) = pos 1
strncmp (c ∷ cs) (d ∷ ds) (suc n) =
    let rest = strncmp cs ds n in if ltb d c then pos 1 else if ltb c d then negsuc 0 else rest

-- The characters of `str2` before its first space, which `strcmpspace` copies to `partition`.
unfoldable pub partition_of : List ℕ → List ℕ
partition_of [] = []
partition_of (d ∷ ds) = let rest = partition_of ds in if d == b' ' then [] else d ∷ rest

-- The comparison of `strcmpspace` with its partition.
unfoldable pub compare_partition : List ℕ → List ℕ → ℤ
compare_partition [] [] = pos 0
compare_partition (c ∷ cs) [] = negsuc 0
compare_partition [] (d ∷ ds) = pos 1
compare_partition (c ∷ cs) (d ∷ ds) =
    let rest = compare_partition cs ds in
    if ltb d c then pos 1 else if ltb c d then negsuc 0 else rest

unfoldable pub strcmpspace : List ℕ → List ℕ → ℤ
strcmpspace str1 str2 = compare_partition str1 (partition_of str2)

-- `strtok`, behind the test for NULL: `str` is given, or the string that is left from the last call.
-- The token, `none` for NULL, and the string that is left.
unfoldable pub strtok_from : (delim : ℕ) → List ℕ → List ℕ × List ℕ
strtok_from delim [] = ([], [])
strtok_from delim (c ∷ cs) =
    let (token, rest) = strtok_from delim cs in if c == delim then ([], cs) else (c ∷ token, rest)

unfoldable pub strtok :
    Option (List ℕ) → (delim : ℕ) → (static_str : List ℕ) → Option (List ℕ) × List ℕ
strtok str delim static_str =
    let s : List ℕ = elim str [ none ↦ static_str | some given ↦ given ] in
    elim s [
      | [] ↦ (none, [])
      | c ∷ cs ↦ (let (token, rest) = strtok_from delim (c ∷ cs) in (some token, rest))
    ]

-- The bytes that `strncpy` writes to `dest`: the characters of `src`, and zeros.
unfoldable pub strncpy : List ℕ → (n : ℕ) → List ℕ
strncpy src zero = []
strncpy [] (suc n) = 0 ∷ strncpy [] n
strncpy (c ∷ cs) (suc n) = c ∷ strncpy cs n

abbrev pub is_digit : ℕ → Bool
is_digit c = leb b'0' c && leb c b'9'

-- `value * sign`
abbrev pub signed : (negative : Bool) → ℕ → ℤ
signed false n = pos n
signed true zero = pos 0
signed true (suc n) = negsuc n

-- The loop of `satoi`; `none` is its return of 0 at a character that is no digit.
unfoldable pub satoi_from : (res : ℕ) → List ℕ → Option ℕ
satoi_from res [] = some res
satoi_from res (c ∷ cs) =
    let rest = satoi_from (res * 10 + c - b'0') cs in if is_digit c then rest else none

abbrev pub satoi_signed : (negative : Bool) → List ℕ → ℤ
satoi_signed negative cs = elim (satoi_from 0 cs) [ none ↦ pos 0 | some res ↦ signed negative res ]

-- `satoi`; a NULL is `none`.
unfoldable pub satoi : Option (List ℕ) → ℤ
satoi none = pos 0
satoi (some []) = satoi_signed false []
satoi (some (c ∷ cs)) = if c == b'-' then satoi_signed true cs else satoi_signed false (c ∷ cs)

-- `reverse` over the whole of a string.
unfoldable pub reverse_chars : List ℕ → List ℕ
reverse_chars cs = swap_ends (length cs) 0 (length cs - 1) cs

-- `(rem > 9) ? (rem - 10) + 'a' : rem + '0'`, where the remainder of a negative number is negative.
abbrev pub itoa_char : (negative : Bool) → (rem : ℕ) → ℕ
itoa_char false rem = if ltb 9 rem then rem - 10 + b'a' else rem + b'0'
itoa_char true rem = (b'0' + 256 - rem) % 256

-- `while (num != 0)` of `itoa`, on fuel: the characters in the order in which they are written.
unfoldable pub itoa_digits : ℕ → (negative : Bool) → (num base : ℕ) → Option (List ℕ)
itoa_digits zero negative num base = none
itoa_digits (suc f) negative num base = elim (num == 0) [
  | true ↦ some []
  | false ↦ elim (itoa_digits f negative (num / base) base) [
    | none ↦ none
    | some cs ↦ some (itoa_char negative (num % base) ∷ cs)
  ]
]

-- `itoa`. An `int` has less than 32 digits in any base from 2 on.
unfoldable pub itoa : ℤ → (base : ℕ) → Option (List ℕ)
itoa (pos zero) base = some (b'0' ∷ [])
itoa (pos (suc n)) base = elim (itoa_digits 33 false (suc n) base) [
  | none ↦ none
  | some cs ↦ some (reverse_chars cs)
]
itoa (negsuc n) base =
    if base == 10
    then elim (itoa_digits 33 false (suc n) base) [
      | none ↦ none
      | some cs ↦ some (reverse_chars (cs ++ b'-' ∷ []))
    ]
    else elim (itoa_digits 33 true (suc n) base) [ none ↦ none | some cs ↦ some (reverse_chars cs) ]

-- `while (num / divisor >= 10) divisor *= 10;` on fuel.
unfoldable pub find_divisor : ℕ → (num divisor : ℕ) → Option ℕ
find_divisor zero num divisor = none
find_divisor (suc f) num divisor = elim (leb 10 (num / divisor)) [
  | true ↦ find_divisor f num (divisor * 10)
  | false ↦ some divisor
]

-- `while (divisor > 0)` of `put_int`, on fuel.
unfoldable pub put_digits : ℕ → (num divisor : ℕ) → Option (List ℕ)
put_digits zero num divisor = none
put_digits (suc f) num divisor = elim (divisor == 0) [
  | true ↦ some []
  | false ↦ elim (put_digits f (num % divisor) (divisor / 10)) [
    | none ↦ none
    | some cs ↦ some ((b'0' + num / divisor) ∷ cs)
  ]
]

-- `put_int` of a number that is not negative. An `int` has at most 10 digits.
unfoldable pub put_magnitude : ℕ → Option (List ℕ)
put_magnitude num = elim (find_divisor 11 num 1) [ none ↦ none | some d ↦ put_digits 12 num d ]

unfoldable pub put_int : ℤ → Option (List ℕ)
put_int (pos n) = put_magnitude n
put_int (negsuc n) = elim (put_magnitude (suc n)) [ none ↦ none | some cs ↦ some (b'-' ∷ cs) ]

abbrev pub hex_char : ℕ → ℕ
hex_char d = if ltb d 10 then b'0' + d else b'A' + d - 10

-- The two loops of `put_hex_dir`, with the places that are left, from the last one down: the characters
-- behind are in place already.
unfoldable pub hex_from : (places num : ℕ) → List ℕ → List ℕ
hex_from zero num behind = behind
hex_from (suc p) num behind =
    hex_from p (num / 16) ((if ltb 0 num then hex_char (num % 16) else b'0') ∷ behind)

unfoldable pub put_hex_dir : ℕ → List ℕ
put_hex_dir num = b'0' ∷ b'x' ∷ hex_from 16 num []

-- The loop of `read_int` at the character `c`, over those that come; `none` is an input that has not
-- ended the number. The character behind the number is taken as well.
unfoldable pub read_digits : (value c : ℕ) → List ℕ → Option (ℕ × List ℕ)
read_digits value c [] = if is_digit c then none else some (value, [])
read_digits value c (d ∷ ds) =
    let rest = read_digits (c - b'0' + value * 10) d ds in
    if is_digit c then rest else some (value, d ∷ ds)

abbrev pub with_sign : (negative : Bool) → Option (ℕ × List ℕ) → Option (ℤ × List ℕ)
with_sign negative none = none
with_sign negative (some (n, rest)) = some (signed negative n, rest)

-- `read_int`
unfoldable pub read_int : List ℕ → Option (ℤ × List ℕ)
read_int [] = none
read_int (c ∷ []) = if c == b'-' then none else with_sign false (read_digits 0 c [])
read_int (c ∷ d ∷ ds) =
    if c == b'-'
    then with_sign true (read_digits 0 d ds)
    else with_sign false (read_digits 0 c (d ∷ ds))

-- `read_string`: the characters before the terminator or the end of the line, which is taken as well.
unfoldable pub read_string : List ℕ → Option (List ℕ × List ℕ)
read_string [] = none
read_string (c ∷ cs) = elim (null_or_newline c) [
  | true ↦ some ([], cs)
  | false ↦ elim (read_string cs) [ none ↦ none | some (s, rest) ↦ some (c ∷ s, rest) ]
]

-- What `print` is given behind its format.
pub data Arg : Type 0 where
  char_arg : ℕ → Arg
  int_arg : ℤ → Arg
  string_arg : List ℕ → Arg
  hex_arg : ℕ → Arg

-- What a conversion prints; an argument of another type is undefined.
abbrev pub convert : (letter : ℕ) → Arg → Option (List ℕ)
convert f (char_arg c) = if f == b'c' then some (c ∷ []) else none
convert f (int_arg n) = if f == b'd' then put_int n else none
convert f (string_arg s) = if f == b's' then some s else none
convert f (hex_arg n) = if f == b'x' then some (put_hex_dir n) else none

abbrev pub is_conversion : ℕ → Bool
is_conversion f = (f == b'c') || (f == b'd') || (f == b's') || (f == b'x')

abbrev pub followed_by : Option (List ℕ) → Option (List ℕ) → Option (List ℕ)
followed_by none rest = none
followed_by (some out) none = none
followed_by (some out) (some rest) = some (out ++ rest)

-- `vprint`. `none` is undefined: a conversion without its argument, or a `%` at the end, behind which
-- the source reads past the terminator.
unfoldable pub vprint : (format : List ℕ) → List Arg → Option (List ℕ)
vprint [] args = some []
vprint (c ∷ []) args = if c == b'%' then none else some (c ∷ [])
vprint (c ∷ f ∷ fs) args =
    let plain = followed_by (some (c ∷ [])) (vprint (f ∷ fs) args) in
    let skip = vprint fs args in
    if not (c == b'%')
    then plain
    else if is_conversion f
    then elim args [ [] ↦ none | a ∷ more ↦ followed_by (convert f a) (vprint fs more) ]
    else skip
