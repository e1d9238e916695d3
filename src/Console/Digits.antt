-- ===== src/Console/Digits.antt =====
-- What the number printed by `uint_to_base` of Kernel/naiveConsole.c stands for.
use boke_os.Base.{
  ℕ, zero, suc, ◌+◌, ◌-◌, ◌*◌, ◌/◌, ◌%◌, ◌^◌, ◌≤◌, ◌<◌, ◌≡◌, ◌∙◌, sym, ap, inl, inr, Bool-cases,
  ==_iff, some, List, [], ◌∷◌, ◌==◌, ltb, if◌then◌else◌, length, arith,
}
use mathlib.Core.List.{reverse, reverse-reverse}
use native.Mathlib.Nat.{div-add-mod, mod-lt, pow-suc}
use boke_os.Base.Swap.{swap_ends-reverse, length-reverse}
use boke_os.Console.Numbers.{digit_char, write_digits, uint_to_base}

-- What a digit stands for, with capital letters from 10 on.
abbrev pub digit_value : ℕ → ℕ
digit_value c = if ltb c b'A' then c - b'0' else c + 10 - b'A'

-- The number that digits stand for, the lowest one first.
abbrev pub number_of : (base : ℕ) → List ℕ → ℕ
number_of base [] = 0
number_of base (c ∷ cs) = digit_value c + base * number_of base cs

digit_value-char : (r : ℕ) → r < 36 → digit_value (digit_char r) ≡ r
digit_value-char r h = ground arith

remainder_small : (v base : ℕ) → 2 ≤ base → base ≤ 36 → v % base < 36
remainder_small v base b small =
    let some_base : 0 < base = omega arith in omega (arith, mod-lt v some_base)

div-lt : (v b n : ℕ) → 2 ≤ b → v < n + n → v / b < n
div-lt v b n h k = grind (arith, div-add-mod v b)

double : (f : ℕ) → 2 ^ suc f ≡ 2 ^ f + 2 ^ f
double f = omega (arith, pow-suc 2 f)

number_of-cons :
    (v base : ℕ) (cs : List ℕ)
    → 2 ≤ base
    → base ≤ 36
    → number_of base cs ≡ v / base
    → number_of base (digit_char (v % base) ∷ cs) ≡ v
number_of-cons v base cs b small e =
    ap (λ d. d + base * number_of base cs)
      (digit_value-char (v % base) (remainder_small v base b small))
    ∙ omega (arith, div-add-mod v base, ap (λ (n : ℕ). base * n) e)

write_digits-number :
    (f v base : ℕ)
    → 2 ≤ base
    → base ≤ 36
    → v < 2 ^ suc f
    → (cs : List ℕ) × (write_digits (suc f) v base ≡ some cs)
      × (number_of base cs ≡ v)
      × (0 < length cs)
unfolding write_digits
write_digits-number zero v base b small h =
    let none_left : v / base ≡ 0 = grind (arith, div-lt v base 1 b) in
    (
      digit_char (v % base) ∷ [],
      ground arith,
      number_of-cons v base [] b small (sym none_left),
      omega arith,
    )
write_digits-number (suc f) v base b small h = elim (Bool-cases (v / base == 0)) [
  | inl done ↦ (
    digit_char (v % base) ∷ [],
    rw (done, write_digits),
    number_of-cons v base [] b small (sym ((==_iff (v / base) 0).0 done)),
    omega arith,
  )
  | inr more ↦
      let (cs, run, number, _) =
        write_digits-number f (v / base) base b small
          (div-lt v base (2 ^ suc f) b (omega (arith, double (suc f)))) in
      (
        digit_char (v % base) ∷ cs,
        rw (more, write_digits) (ground arith),
        number_of-cons v base cs b small number,
        omega arith,
      )
]

-- `uint_to_base` of a `uint64_t` in a base from 2 to 36 ends, and its characters, read from the first
-- to the last, stand for the number.
pub uint_to_base-number :
    (value base : ℕ)
    → 2 ≤ base
    → base ≤ 36
    → value < 2 ^ 64
    → (cs : List ℕ) × (uint_to_base 64 value base ≡ some cs)
      × (number_of base (reverse cs) ≡ value)
      × (0 < length cs)
unfolding uint_to_base
uint_to_base-number value base b small h =
    let (cs, run, number, some_) = write_digits-number 63 value base b small h in
    (
      reverse cs,
      rw (run, uint_to_base) (ap some (swap_ends-reverse cs)),
      ap (number_of base) (reverse-reverse cs) ∙ number,
      omega (arith, length-reverse cs),
    )
