-- ===== src/Userland/Utils/Scan.antt =====
-- `own_scanf` of Userland/SampleCodeModule/utils.c, and that it reads back what `vprint` prints.
use mathlib.Core.Option
use mathlib.Core.List.{append_assoc}
use boke_os.Base.{
  ℕ, suc, ◌+◌, ◌-◌, ◌*◌, ◌^◌, ◌<◌, ◌≡◌, refl, ap, ap₂, ◌∙◌, arith, Bool, true, false, not, ◌&&◌,
  ◌||◌, Option, none, some, List, [], ◌∷◌, ◌++◌, map, length, leb, ◌==◌, if◌then◌else◌,
}
use boke_os.Base.Int.{ℤ}
use boke_os.Userland.Utils.{
  is_digit, with_sign, read_int, read_string, int_arg, vprint, followed_by, put_int,
}
use boke_os.Userland.Utils.Numbers.{magnitude}
use boke_os.Userland.Utils.Print.{read_int-put_int}

abbrev pub is_hex : ℕ → Bool
is_hex c = is_digit c || (leb b'A' c && leb c b'F')

-- The value of a digit in base 16.
abbrev pub hex_value : ℕ → ℕ
hex_value c = if leb b'A' c && leb c b'F' then c - b'A' + 10 else c - b'0'

-- The loop of `read_hex_int` at the character `c`, over those that come.
unfoldable pub read_hex_digits : (value c : ℕ) → List ℕ → Option (ℕ × List ℕ)
read_hex_digits value c [] = if is_hex c then none else some (value, [])
read_hex_digits value c (d ∷ ds) =
    let rest = read_hex_digits (value * 16 + hex_value c) d ds in
    if is_hex c then rest else some (value, d ∷ ds)

-- `read_hex_int`
unfoldable pub read_hex_int : List ℕ → Option (ℤ × List ℕ)
read_hex_int [] = none
read_hex_int (c ∷ []) = if c == b'-' then none else with_sign false (read_hex_digits 0 c [])
read_hex_int (c ∷ d ∷ ds) =
    if c == b'-'
    then with_sign true (read_hex_digits 0 d ds)
    else with_sign false (read_hex_digits 0 c (d ∷ ds))

-- What `own_scanf` stores behind one of its pointers.
pub data Value : Type 0 where
  char_value : ℕ → Value
  int_value : ℤ → Value
  string_value : List ℕ → Value

-- What was stored, what is added to the result, and the input that is left.
abbrev pub Scanned : Type 0
Scanned = List Value × ℕ × List ℕ

abbrev pub read_char : List ℕ → Option Scanned
read_char [] = none
read_char (c ∷ cs) = some (char_value c ∷ [], 1, cs)

-- A conversion. The result of `read_string` is the length of the string.
unfoldable pub convert_input : (letter : ℕ) → List ℕ → Option Scanned
convert_input f input =
    if f == b'c'
    then read_char input
    else if f == b'd'
    then Option.map (λ (r : ℤ × List ℕ). (int_value r.0 ∷ [], 1, r.1)) (read_int input)
    else if f == b's'
    then Option.map (λ (r : List ℕ × List ℕ). (string_value r.0 ∷ [], length r.0, r.1))
        (read_string input)
    else if f == b'x'
    then Option.map (λ (r : ℤ × List ℕ). (int_value r.0 ∷ [], 1, r.1)) (read_hex_int input)
    else some ([], 0, input)

abbrev pub and_then : Option Scanned → (List ℕ → Option Scanned) → Option Scanned
and_then none next = none
and_then (some (vs, n, rest)) next =
    Option.map (λ (r : Scanned). (vs ++ r.0, n + r.1, r.2)) (next rest)

-- `own_scanf`. `none` is an input that has not ended, or a `%` at the end of the format, behind which
-- the source reads past the terminator.
unfoldable pub own_scanf : (format : List ℕ) → List ℕ → Option Scanned
own_scanf [] input = some ([], 0, input)
own_scanf (c ∷ []) input = if c == b'%' then none else some ([], 0, input)
own_scanf (c ∷ f ∷ fs) input =
    let plain = own_scanf (f ∷ fs) input in
    let next = own_scanf fs in
    if not (c == b'%') then plain else and_then (convert_input f input) next

-- `%d ` for each of the numbers.
unfoldable pub format_of : List ℤ → List ℕ
format_of [] = []
format_of (n ∷ ns) = b'%' ∷ b'd' ∷ b' ' ∷ format_of ns

abbrev pub Small : List ℤ → Type 0
Small [] = Unit
Small (n ∷ ns) = (magnitude n < 2 ^ 31) × Small ns

vprint-space :
    (ns : List ℤ) (out : List ℕ)
    → vprint (format_of ns) (map int_arg ns) ≡ some out
    → vprint (b' ' ∷ format_of ns) (map int_arg ns) ≡ some (b' ' ∷ out)
unfolding vprint format_of
vprint-space [] out e = ap (followed_by (some (b' ' ∷ []))) e
vprint-space (n ∷ ns) out e = ap (followed_by (some (b' ' ∷ []))) e

own_scanf-space :
    (ns : List ℤ) (input : List ℕ)
    → own_scanf (b' ' ∷ format_of ns) input ≡ own_scanf (format_of ns) input
unfolding own_scanf format_of
own_scanf-space [] input = refl
own_scanf-space (n ∷ ns) input = refl

vprint-cons :
    (n : ℤ) (ns : List ℤ) (cs out : List ℕ)
    → put_int n ≡ some cs
    → vprint (format_of ns) (map int_arg ns) ≡ some out
    → vprint (format_of (n ∷ ns)) (map int_arg (n ∷ ns)) ≡ some (cs ++ b' ' ∷ out)
unfolding vprint format_of
vprint-cons n ns cs out put e = ap₂ followed_by put (vprint-space ns out e)

own_scanf-cons :
    (n : ℤ) (ns : List ℤ) (input rest : List ℕ) (vs : List Value) (k : ℕ) (end : List ℕ)
    → read_int input ≡ some (n, rest)
    → own_scanf (format_of ns) rest ≡ some (vs, k, end)
    → own_scanf (format_of (n ∷ ns)) input ≡ some (int_value n ∷ vs, suc k, end)
unfolding own_scanf format_of convert_input
own_scanf-cons n ns input rest vs k end got e =
    let count : 1 + k ≡ suc k = omega arith in
    ap
      (λ (o : Option (ℤ × List ℕ)).
        and_then (Option.map (λ (r : ℤ × List ℕ). (int_value r.0 ∷ [], 1, r.1)) o)
          (own_scanf (b' ' ∷ format_of ns)))
      got
    ∙ ap (Option.map (λ (r : Scanned). (int_value n ∷ [] ++ r.0, 1 + r.1, r.2)))
        (own_scanf-space ns rest ∙ e)
    ∙ ap (λ (m : ℕ). some (int_value n ∷ vs, m, end)) count

-- `own_scanf` reads back what `print` prints of numbers with the same format, a `%d` and a space for
-- each: it stores the numbers in their order, returns how many they are, and leaves what is behind.
pub own_scanf-vprint :
    (ns : List ℤ) (rest : List ℕ)
    → Small ns
    → (out : List ℕ) × (vprint (format_of ns) (map int_arg ns) ≡ some out)
      × (own_scanf (format_of ns) (out ++ rest) ≡ some (map int_value ns, length ns, rest))
own_scanf-vprint [] rest h =
    ([], unfold vprint format_of in refl, unfold own_scanf format_of in refl)
own_scanf-vprint (n ∷ ns) rest h =
    let (out, printed, scanned) = own_scanf-vprint ns rest h.1 in
    let (cs, put, got) = read_int-put_int n b' ' (out ++ rest) h.0 refl in
    (
      cs ++ b' ' ∷ out,
      vprint-cons n ns cs out put printed,
      rw (append_assoc cs (b' ' ∷ out) rest)
          (own_scanf-cons n ns (cs ++ b' ' ∷ (out ++ rest)) (out ++ rest) _ _ rest got scanned),
    )
