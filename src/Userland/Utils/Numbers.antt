-- ===== src/Userland/Utils/Numbers.antt =====
-- `itoa` and `satoi` of Userland/SampleCodeModule/utils.c: a number is written and read back.
use boke_os.Base.{
  ℕ, zero, suc, ◌+◌, ◌-◌, ◌*◌, ◌/◌, ◌%◌, ◌^◌, ◌<◌, ◌≡◌, refl, ◌∙◌, ap, inl, inr, Bool, true, false,
  Bool-cases, some, List, [], ◌∷◌, ◌++◌, ◌==◌, length, arith,
}
use mathlib.Core.List.{reverse, reverse-cons, reverse-append}
use native.Mathlib.Nat.{pow-suc}
use boke_os.Base.Int.{ℤ, pos, negsuc}
use boke_os.Base.Swap.{swap_ends-reverse}
use boke_os.Userland.Utils.{
  is_digit, signed, satoi_from, satoi_signed, satoi, reverse_chars, itoa_char, itoa_digits, itoa,
}

-- The number that decimal digits stand for, the first one highest, behind the value `v`.
abbrev pub decimal : (v : ℕ) → List ℕ → ℕ
decimal v [] = v
decimal v (c ∷ cs) = decimal (v * 10 + (c - b'0')) cs

abbrev pub AllDigits : List ℕ → Type 0
AllDigits [] = Unit
AllDigits (c ∷ cs) = (is_digit c ≡ true) × AllDigits cs

satoi_from-decimal : (cs : List ℕ) (v : ℕ) → AllDigits cs → satoi_from v cs ≡ some (decimal v cs)
unfolding satoi_from
satoi_from-decimal [] v h = refl
satoi_from-decimal (c ∷ cs) v h =
    let same : v * 10 + c - b'0' ≡ v * 10 + (c - b'0') = ground arith in
    rw (h.0, satoi_from) (rw same (satoi_from-decimal cs (v * 10 + (c - b'0')) h.1))

decimal-snoc : (cs : List ℕ) (v c : ℕ) → decimal v (cs ++ c ∷ []) ≡ decimal v cs * 10 + (c - b'0')
decimal-snoc [] v c = refl
decimal-snoc (d ∷ cs) v c = decimal-snoc cs (v * 10 + (d - b'0')) c

AllDigits-snoc : (cs : List ℕ) (c : ℕ) → AllDigits cs → is_digit c ≡ true → AllDigits (cs ++ c ∷ [])
AllDigits-snoc [] c h k = (k, tt)
AllDigits-snoc (d ∷ cs) c h k = (h.0, AllDigits-snoc cs c h.1 k)

reverse_chars_lem : (cs : List ℕ) → reverse_chars cs ≡ reverse cs
unfolding reverse_chars
reverse_chars_lem cs = swap_ends-reverse cs

-- Read backwards, the digits that the loop writes stand for the number, and the last one is no zero.
itoa_digits-decimal :
    (f num : ℕ)
    → num < 2 ^ f
    → (cs : List ℕ) × (itoa_digits (suc f) false num 10 ≡ some cs)
      × AllDigits (reverse cs)
      × (decimal 0 (reverse cs) ≡ num)
      × (0 < num → 0 < length cs)
unfolding itoa_digits
itoa_digits-decimal zero num h = ([], ground arith, tt, omega arith, λ p. omega arith)
itoa_digits-decimal (suc f) num h = elim (Bool-cases (num == 0)) [
  | inl done ↦ ([], rw (done, itoa_digits), tt, ground arith, λ p. ground arith)
  | inr more ↦
      let (cs, run, digits, number, _) =
        itoa_digits-decimal f (num / 10) (omega (arith, pow-suc 2 f)) in
      let c = num % 10 + b'0' in
      let char : itoa_char false (num % 10) ≡ c = ground arith in
      (
        c ∷ cs,
        rw (more, itoa_digits) (ground (arith, char)),
        rw reverse-cons (AllDigits-snoc (reverse cs) c digits (ground arith)),
        rw reverse-cons (decimal-snoc (reverse cs) 0 c ∙ omega (arith, number)),
        λ p. omega arith,
      )
]

satoi_signed-decimal :
    (negative : Bool) (cs : List ℕ)
    → AllDigits cs
    → satoi_signed negative cs ≡ signed negative (decimal 0 cs)
satoi_signed-decimal negative cs h = rw (satoi_from-decimal cs 0 h, satoi_signed)

pub satoi-digits : (cs : List ℕ) → AllDigits cs → satoi (some cs) ≡ pos (decimal 0 cs)
unfolding satoi
satoi-digits [] h = satoi_signed-decimal false [] h
satoi-digits (c ∷ cs) h =
    let sign : (c == b'-') ≡ false = ground (arith, h.0) in
    rw (sign, satoi) (satoi_signed-decimal false (c ∷ cs) h)

pub satoi-minus :
    (cs : List ℕ) → AllDigits cs → satoi (some (b'-' ∷ cs)) ≡ signed true (decimal 0 cs)
unfolding satoi
satoi-minus cs h = satoi_signed-decimal true cs h

-- The distance from 0.
abbrev pub magnitude : ℤ → ℕ
magnitude (pos n) = n
magnitude (negsuc n) = suc n

-- `itoa` in base 10 of an `int` other than the least one ends, and `satoi` of the text is the number.
satoi-itoa :
    (n : ℤ) → magnitude n < 2 ^ 31 → (cs : List ℕ) × (itoa n 10 ≡ some cs) × (satoi (some cs) ≡ n)
unfolding itoa
satoi-itoa (pos zero) h = (b'0' ∷ [], refl, satoi-digits (b'0' ∷ []) (refl, tt))
satoi-itoa (pos (suc n)) h =
    let (cs, run, digits, number, _) = itoa_digits-decimal 32 (suc n) (omega arith) in
    (
      reverse cs,
      rw (run, itoa) (ap some (reverse_chars_lem cs)),
      satoi-digits (reverse cs) digits ∙ ap pos number,
    )
satoi-itoa (negsuc n) h =
    let (cs, run, digits, number, _) = itoa_digits-decimal 32 (suc n) (omega arith) in
    (
      b'-' ∷ reverse cs,
      rw (run, itoa)
          (ap some (reverse_chars_lem (cs ++ b'-' ∷ []) ∙ reverse-append cs (b'-' ∷ []))),
      satoi-minus (reverse cs) digits ∙ ap (signed true) number,
    )
