-- ===== src/Userland/Utils/Print.antt =====
-- `put_int`, `put_hex_dir` and `read_int` of Userland/SampleCodeModule/utils.c.
use boke_os.Base.{
  ℕ, zero, suc, ◌+◌, ◌-◌, ◌*◌, ◌/◌, ◌%◌, ◌^◌, ◌≤◌, ◌<◌, ◌≡◌, refl, ◌∙◌, ap, sym, inl, inr, true,
  false, Bool-cases, some, List, [], ◌∷◌, ◌++◌, ◌==◌, leb, length, arith,
}
use native.Mathlib.Nat.{div-add-mod, pow-suc, mod-lt}
use boke_os.Base.Int.{ℤ, pos, negsuc}
use boke_os.Userland.Utils.{
  is_digit, signed, find_divisor, put_digits, put_magnitude, put_int, read_digits, with_sign,
  read_int, satoi,
}
use boke_os.Userland.Utils.Numbers.{decimal, AllDigits, magnitude, satoi-digits, satoi-minus}

pow_pos : (k : ℕ) → 0 < 10 ^ k
pow_pos zero = omega arith
pow_pos (suc k) = omega (arith, pow_pos k, pow-suc 10 k)

-- A number below ten times the divisor has a digit in front, and a rest below the divisor.
div_small : (num p : ℕ) → 0 < p → num / p < 10 → num < p * 10
div_small num p h k = grind (arith, div-add-mod num p, mod-lt)

div_digit : (num p : ℕ) → 0 < p → num < p * 10 → num / p < 10
div_digit num p h k = grind (arith, div-add-mod num p, mod-lt)

find_divisor-stop :
    (f num divisor : ℕ)
    → leb 10 (num / divisor) ≡ false
    → find_divisor (suc f) num divisor ≡ some divisor
unfolding find_divisor
find_divisor-stop f num divisor h = rw (h, find_divisor) refl

find_divisor-more :
    (f num divisor : ℕ)
    → leb 10 (num / divisor) ≡ true
    → find_divisor (suc f) num divisor ≡ find_divisor f num (divisor * 10)
unfolding find_divisor
find_divisor-more f num divisor h = rw (h, find_divisor) refl

put_digits-end : (f num : ℕ) → put_digits (suc f) num 0 ≡ some []
unfolding put_digits
put_digits-end f num = refl

put_digits-digit :
    (f num divisor : ℕ) (cs : List ℕ)
    → 0 < divisor
    → put_digits f (num % divisor) (divisor / 10) ≡ some cs
    → put_digits (suc f) num divisor ≡ some ((b'0' + num / divisor) ∷ cs)
unfolding put_digits
put_digits-digit f num divisor cs h run =
    let not_zero : (divisor == 0) ≡ false = ground arith in rw (not_zero, put_digits) (rw run refl)

find_divisor-power :
    (f j num : ℕ)
    → num < 10 ^ (j + suc f)
    → (k : ℕ) × (find_divisor (suc f) num (10 ^ j) ≡ some (10 ^ k))
      × (num < 10 ^ suc k)
      × (k ≤ j + f)
find_divisor-power zero j num h =
    let same : j + 1 ≡ suc j = omega arith in
    let small : num < 10 ^ suc j = rw same at h in
    let digit : num / 10 ^ j < 10 =
      div_digit num (10 ^ j) (pow_pos j) (omega (arith, pow-suc 10 j)) in
    (j, find_divisor-stop 0 num (10 ^ j) (ground arith), small, omega arith)
find_divisor-power (suc f) j num h = elim (Bool-cases (leb 10 (num / 10 ^ j))) [
  | inr done ↦ (
    j,
    find_divisor-stop (suc f) num (10 ^ j) done,
    omega (arith, pow-suc 10 j, div_small num (10 ^ j) (pow_pos j) (ground arith)),
    omega arith,
  )
  | inl more ↦
      let same : j + suc (suc f) ≡ suc j + suc f = omega arith in
      let (k, run, small, le) = find_divisor-power f (suc j) num (rw same at h) in
      let next : 10 ^ j * 10 ≡ 10 ^ suc j = omega (arith, pow-suc 10 j) in
      (
        k,
        find_divisor-more (suc f) num (10 ^ j) more ∙ ap (find_divisor (suc f) num) next ∙ run,
        small,
        omega arith,
      )
]

-- One digit in front of a number of the digits that follow.
digit_in_front : (v num p : ℕ) → 0 < p → (v * 10 + num / p) * p + num % p ≡ v * (p * 10) + num
digit_in_front v num p h = grind (arith, div-add-mod num p)

-- With the divisor 10 ^ k, a number below 10 ^ (k + 1) is printed in k + 1 digits.
put_digits-decimal :
    (k f num v : ℕ)
    → num < 10 ^ suc k
    → k < f
    → (cs : List ℕ) × (put_digits (suc f) num (10 ^ k) ≡ some cs)
      × AllDigits cs
      × (decimal v cs ≡ v * 10 ^ suc k + num)
      × (length cs ≡ suc k)
put_digits-decimal zero zero num v h l = absurd (omega arith)
put_digits-decimal zero (suc f) num v h l = (
  (b'0' + num / 1) ∷ [],
  put_digits-digit (suc f) num 1 [] (omega arith) (put_digits-end f (num % 1)),
  (ground arith, tt),
  omega arith,
  refl,
)
put_digits-decimal (suc k) zero num v h l = absurd (omega arith)
put_digits-decimal (suc k) (suc f) num v h l =
    let p = 10 ^ suc k in
    let p_pos : 0 < p = pow_pos (suc k) in
    let digit : num / p < 10 = div_digit num p p_pos (omega (arith, pow-suc 10 (suc k))) in
    let next : p / 10 ≡ 10 ^ k = omega (arith, pow-suc 10 k) in
    let c = b'0' + num / p in
    let char : v * 10 + (c - b'0') ≡ v * 10 + num / p = omega arith in
    let (cs, run, digits, number, len) =
      put_digits-decimal k f (num % p) (v * 10 + (c - b'0')) (mod-lt num p_pos) (omega arith) in
    (
      c ∷ cs,
      put_digits-digit (suc f) num p cs p_pos (ap (put_digits (suc f) (num % p)) next ∙ run),
      (ground arith, digits),
      number
          ∙ ap (λ x. x * p + num % p) char
          ∙ digit_in_front v num p p_pos
          ∙ ap (λ x. v * x + num) (sym (pow-suc 10 (suc k))),
      ap suc len,
    )

-- A number of at most eleven digits is printed, in decimal digits that stand for it.
put_magnitude-decimal :
    (num : ℕ)
    → num < 10 ^ 11
    → (cs : List ℕ) × (put_magnitude num ≡ some cs)
      × AllDigits cs
      × (decimal 0 cs ≡ num)
      × (0 < length cs)
unfolding put_magnitude
put_magnitude-decimal num h =
    let (k, divisor, small, le) = find_divisor-power 10 0 num h in
    let (cs, run, digits, number, len) = put_digits-decimal k 11 num 0 small (omega arith) in
    (cs, rw (divisor, put_magnitude) run, digits, number ∙ omega arith, omega (arith, len))

-- `satoi` of what `put_int` prints is the number.
satoi-put_int :
    (n : ℤ) → magnitude n < 2 ^ 31 → (cs : List ℕ) × (put_int n ≡ some cs) × (satoi (some cs) ≡ n)
unfolding put_int
satoi-put_int (pos n) h =
    let (cs, run, digits, number, _) = put_magnitude-decimal n (omega (arith, h)) in
    (cs, run, satoi-digits cs digits ∙ ap pos number)
satoi-put_int (negsuc n) h =
    let (cs, run, digits, number, _) = put_magnitude-decimal (suc n) (omega (arith, h)) in
    (b'-' ∷ cs, rw (run, put_int) refl, satoi-minus cs digits ∙ ap (signed true) number)

read_digits-stop :
    (rest : List ℕ) (v e : ℕ) → is_digit e ≡ false → read_digits v e rest ≡ some (v, rest)
unfolding read_digits
read_digits-stop [] v e h = rw h refl
read_digits-stop (d ∷ ds) v e h = rw h refl

read_digits-decimal :
    (cs rest : List ℕ) (v c e : ℕ)
    → AllDigits (c ∷ cs)
    → is_digit e ≡ false
    → read_digits v c (cs ++ e ∷ rest) ≡ some (decimal v (c ∷ cs), rest)
unfolding read_digits
read_digits-decimal [] rest v c e digits h =
    let same : c - b'0' + v * 10 ≡ v * 10 + (c - b'0') = omega arith in
    rw (digits.0, read_digits) (rw same (read_digits-stop rest (v * 10 + (c - b'0')) e h))
read_digits-decimal (d ∷ cs) rest v c e digits h =
    let same : c - b'0' + v * 10 ≡ v * 10 + (c - b'0') = omega arith in
    rw (digits.0, read_digits)
      (rw same (read_digits-decimal cs rest (v * 10 + (c - b'0')) d e digits.1 h))

read_int-digits :
    (cs rest : List ℕ) (e : ℕ)
    → AllDigits cs
    → 0 < length cs
    → is_digit e ≡ false
    → read_int (cs ++ e ∷ rest) ≡ some (pos (decimal 0 cs), rest)
unfolding read_int
read_int-digits [] rest e digits l h = absurd (omega arith)
read_int-digits (c ∷ []) rest e digits l h =
    let sign : (c == b'-') ≡ false = ground (arith, digits.0) in
    rw (sign, read_int) (ap (with_sign false) (read_digits-decimal [] rest 0 c e digits h))
read_int-digits (c ∷ d ∷ cs) rest e digits l h =
    let sign : (c == b'-') ≡ false = ground (arith, digits.0) in
    rw (sign, read_int) (ap (with_sign false) (read_digits-decimal (d ∷ cs) rest 0 c e digits h))

read_int-minus :
    (cs rest : List ℕ) (e : ℕ)
    → AllDigits cs
    → 0 < length cs
    → is_digit e ≡ false
    → read_int (b'-' ∷ (cs ++ e ∷ rest)) ≡ some (signed true (decimal 0 cs), rest)
unfolding read_int
read_int-minus [] rest e digits l h = absurd (omega arith)
read_int-minus (c ∷ cs) rest e digits l h =
    ap (with_sign true) (read_digits-decimal cs rest 0 c e digits h)

-- `put_int` of an `int` other than the least one ends. `read_int` of what it prints, with any character
-- behind it that is no digit, gives the number and takes that character.
pub read_int-put_int :
    (n : ℤ) (e : ℕ) (rest : List ℕ)
    → magnitude n < 2 ^ 31
    → is_digit e ≡ false
    → (cs : List ℕ) × (put_int n ≡ some cs) × (read_int (cs ++ e ∷ rest) ≡ some (n, rest))
unfolding put_int
read_int-put_int (pos n) e rest h k =
    let (cs, run, digits, number, some_digit) = put_magnitude-decimal n (omega (arith, h)) in
    (cs, run, read_int-digits cs rest e digits some_digit k ∙ ap (λ m. some (pos m, rest)) number)
read_int-put_int (negsuc n) e rest h k =
    let (cs, run, digits, number, some_digit) = put_magnitude-decimal (suc n) (omega (arith, h)) in
    (
      b'-' ∷ cs,
      rw (run, put_int) refl,
      read_int-minus cs rest e digits some_digit k ∙ ap (λ m. some (signed true m, rest)) number,
    )
