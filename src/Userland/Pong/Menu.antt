-- ===== src/Userland/Pong/Menu.antt =====
-- What the menu of pong.c does with numbers and keys.
use boke_os.Base.{
  ℕ, zero, suc, ◌+◌, ◌-◌, ◌*◌, ◌%◌, ◌≤◌, ◌<◌, ◌≡◌, refl, arith, Bool, not, ==_iff, Bool-cases, inl,
  inr, true, false, ◌&&◌, ◌||◌, some, List, [], ◌∷◌, ◌++◌, get_or, leb, ◌==◌, if◌then◌else◌,
}
use boke_os.Userland.Utils.Numbers.{AllDigits, decimal}
use boke_os.Userland.Pong.{add_int, sub_int, int_mod, lt_int}
use boke_os.Userland.Pong.Keys.{ascii_to_key_code, scan_codes}
use boke_os.Userland.Pong.Settings.{Settings, get_number, get_number_from, choose, store_width1}

decimal-grows : (cs : List ℕ) (v : ℕ) → v ≤ decimal v cs
decimal-grows [] v = omega arith
decimal-grows (c ∷ cs) v = omega (arith, decimal-grows cs (v * 10 + (c - 48)))

get_number_from-decimal :
    (cs rest : List ℕ) (v : ℕ)
    → AllDigits cs
    → decimal v cs < 2147483648
    → get_number_from v (cs ++ 10 ∷ rest) ≡ some (decimal v cs, rest)
unfolding get_number_from
get_number_from-decimal [] rest v d h = refl
get_number_from-decimal (c ∷ cs) rest v d h =
    let small = decimal-grows cs (v * 10 + (c - 48)) in
    let x : (c == 10) ≡ false = ground (arith, d.0) in
    let y : (c == 8) ≡ false = ground (arith, d.0) in
    let z : ((leb 48 c && leb c 57) || false) ≡ true = ground (arith, d.0) in
    let low : 48 ≤ c = ground (arith, d.0) in
    let high : c ≤ 57 = ground (arith, d.0) in
    let next : add_int (v * 10 % int_mod) (sub_int c 48) ≡ v * 10 + (c - 48) =
      omega (arith, low, high, small, h) in
    rw (x, y, z, next) (get_number_from-decimal cs rest (v * 10 + (c - 48)) d.1 h)

-- `get_number` of digits and the end of the line is the number that they stand for, if it is less
-- than 2^31, and leaves what is behind.
get_number-decimal :
    (cs rest : List ℕ)
    → AllDigits cs
    → decimal 0 cs < 2147483648
    → get_number (cs ++ 10 ∷ rest) ≡ some (decimal 0 cs, rest)
unfolding get_number
get_number-decimal cs rest d h = get_number_from-decimal cs rest 0 d h

-- The answer of a question for a number.
above_zero : (n : ℕ) → 0 < n → n < 2147483648 → lt_int 0 n ≡ true
above_zero n l h = ground arith

-- The choice `S` with a number above 0 sets the score and, as `D` does, everything else to its
-- default.
choose-score :
    (s : Settings) (cs rest : List ℕ)
    → AllDigits cs
    → 0 < decimal 0 cs
    → decimal 0 cs < 2147483648
    → choose b'S' s (cs ++ 10 ∷ rest) ≡ choose b'D' (record s { score = decimal 0 cs }) rest
unfolding choose
choose-score s cs rest d l h =
    rw (get_number-decimal cs rest d h, above_zero (decimal 0 cs) l h) refl

-- The choice `7` asks for the widths of both paddles and gives both answers to the first.
choose-width :
    (s : Settings) (cs ds rest : List ℕ)
    → AllDigits cs
    → 0 < decimal 0 cs
    → decimal 0 cs < 2147483648
    → AllDigits ds
    → 0 < decimal 0 ds
    → decimal 0 ds < 2147483648
    → choose b'7' s (cs ++ 10 ∷ (ds ++ 10 ∷ rest)) ≡ some (store_width1 (decimal 0 ds) s, rest)
unfolding choose
choose-width s cs ds rest d l h d' l' h' =
    rw
      (
        get_number-decimal cs (ds ++ 10 ∷ rest) d h,
        above_zero (decimal 0 cs) l h,
        get_number-decimal ds rest d' h',
        above_zero (decimal 0 ds) l' h',
      )
      refl

-- A property of the numbers below a bound, tested one by one.
all_below : (ℕ → Bool) → ℕ → Bool
all_below test zero = true
all_below test (suc n) = let rest = all_below test n in if test n then rest else false

all_below-test : (test : ℕ → Bool) (n c : ℕ) → all_below test n ≡ true → c < n → test c ≡ true
unfolding all_below
all_below-test test zero c a h = absurd (omega arith)
all_below-test test (suc n) c a h = elim (Bool-cases (c == n)) [
  | inl e ↦ let same : c ≡ n = (==_iff c n).0 e in rw same (ground (arith, a))
  | inr e ↦ all_below-test test n c (ground (arith, a)) (ground arith)
]

-- Letters and digits.
abbrev pub is_letter_or_digit : ℕ → Bool
is_letter_or_digit c = (leb 65 c && leb c 90) || (leb 48 c && leb c 57)

abbrev swapped : ℕ → ℕ
swapped c = if c == b'Y' then b'Z' else if c == b'Z' then b'Y' else c

abbrev key_test : ℕ → Bool
key_test c = not (is_letter_or_digit c) || (get_or scan_codes (ascii_to_key_code c) 0 == swapped c)

key_tests : all_below key_test 91 ≡ true
unfolding ascii_to_key_code all_below
key_tests = refl

-- The key code of a letter or a digit stands for it in the table of scan codes, except that the
-- codes of `Y` and `Z` are exchanged.
scan_codes-ascii_to_key_code :
    (c : ℕ)
    → is_letter_or_digit c ≡ true
    → get_or scan_codes (ascii_to_key_code c) 0
      ≡ (if c == b'Y' then b'Z' else if c == b'Z' then b'Y' else c)
scan_codes-ascii_to_key_code c h =
    let tested = all_below-test key_test 91 c key_tests (ground arith) in
    (==_iff (get_or scan_codes (ascii_to_key_code c) 0) (swapped c)).0 (rw h at tested)
