-- ===== src/Console/Numbers.antt =====
-- `uint_to_base` of Kernel/naiveConsole.c: the characters of a number, written backwards and then
-- reversed in place. The buffer is the list of its characters; a loop that has not ended within the
-- fuel gives `none`.
use boke_os.Base.{
  ℕ, zero, suc, ◌+◌, ◌-◌, ◌/◌, ◌%◌, true, false, Option, none, some, List, [], ◌∷◌, ◌==◌, ltb,
  if◌then◌else◌, length,
}
use boke_os.Base.Swap.{swap_ends}

-- `(remainder < 10) ? remainder + '0' : remainder + 'A' - 10`, stored into a `char`
abbrev pub digit_char : ℕ → ℕ
digit_char r = (if ltb r 10 then r + b'0' else r + b'A' - 10) % 256

-- The `do ... while (value /= base)` loop: the characters in the order in which they are written.
unfoldable pub write_digits : ℕ → (value base : ℕ) → Option (List ℕ)
write_digits zero value base = none
write_digits (suc f) value base = elim (value / base == 0) [
  | true ↦ some (digit_char (value % base) ∷ [])
  | false ↦ elim (write_digits f (value / base) base) [
    | none ↦ none
    | some cs ↦ some (digit_char (value % base) ∷ cs)
  ]
]

-- The characters in the buffer, less the terminator; their number is what is returned.
unfoldable pub uint_to_base : ℕ → (value base : ℕ) → Option (List ℕ)
uint_to_base f value base = elim (write_digits f value base) [
  | none ↦ none
  | some cs ↦ some (swap_ends (length cs) 0 (length cs - 1) cs)
]
