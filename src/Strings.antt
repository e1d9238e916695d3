-- ===== src/Strings.antt =====
-- The string and memory routines of Kernel/lib.c. Memory is a function from addresses to bytes. A
-- loop that looks for a terminator runs on fuel; `none` means that the fuel ran out.
pub mod Laws
use boke_os.Base.{
  ℕ, zero, suc, ◌+◌, ◌-◌, ◌*◌, ◌/◌, ◌%◌, ◌≡◌, ◌≢◌, Bool, not, ◌&&◌, Option, none, some, ◌==◌,
  if◌then◌else◌, update, List, [], ◌∷◌, true, false,
}
use boke_os.Base.Int.{ℤ, sub_ℕ}

abbrev pub Memory : Type 0
Memory = ℕ → ℕ

-- `while (str[len]) len++;` from `len` on.
unfoldable pub str_len_from : ℕ → Memory → (str len : ℕ) → Option ℕ
str_len_from zero m str len = none
str_len_from (suc f) m str len = elim (m (str + len)) [
  | zero ↦ some len
  | suc c ↦ str_len_from f m str (len + 1)
]

unfoldable pub str_len : ℕ → Memory → ℕ → Option ℕ
unfolding str_len_from
str_len f m str = str_len_from f m str 0

-- The loop of `strcmp` from `i` on.
unfoldable pub strcmp_from : ℕ → Memory → (str1 str2 i : ℕ) → Option ℤ
strcmp_from zero m s t i = none
strcmp_from (suc f) m s t i =
    let a = m (s + i) in
    let b = m (t + i) in
    elim (not (a == 0) && not (b == 0) && (a == b)) [
      | true ↦ strcmp_from f m s t (i + 1)
      | false ↦ some (sub_ℕ a b)
    ]

unfoldable pub strcmp : ℕ → Memory → (str1 str2 : ℕ) → Option ℤ
unfolding strcmp_from
strcmp f m s t = strcmp_from f m s t 0

-- The loop of `str_cpy` from `i` on; the result is `i` and the memory.
unfoldable pub str_cpy_from : ℕ → Memory → (dst src i : ℕ) → Option (ℕ × Memory)
str_cpy_from zero m dst src i = none
str_cpy_from (suc f) m dst src i = elim (m (src + i)) [
  | zero ↦ some (i, update m (dst + i) 0)
  | suc c ↦ str_cpy_from f (update m (dst + i) (suc c)) dst src (i + 1)
]

unfoldable pub str_cpy : ℕ → Memory → (dst src : ℕ) → Option (ℕ × Memory)
unfolding str_cpy_from
str_cpy f m dst src = str_cpy_from f m dst src 0

-- `memset`: `while (length--) dst[length] = chr;`, where `chr` is the low byte of `c`.
unfoldable pub memset : Memory → (dst c length : ℕ) → Memory
memset m dst c zero = m
memset m dst c (suc n) = memset (update m (dst + n) (c % 256)) dst c n

-- The byte loop of `memcpy`, with the rounds that are left.
unfoldable pub copy_bytes : Memory → (dst src rounds i : ℕ) → Memory
copy_bytes m dst src zero i = m
copy_bytes m dst src (suc r) i = copy_bytes (update m (dst + i) (m (src + i))) dst src r (i + 1)

-- `d[i] = s[i]` on words of four bytes: the word is read before any of it is written.
abbrev pub copy_word : Memory → (dst src i : ℕ) → Memory
copy_word m dst src i =
    let d = dst + i * 4 in
    let s = src + i * 4 in
    update (update (update (update m d (m s)) (d + 1) (m (s + 1))) (d + 2) (m (s + 2))) (d + 3)
      (m (s + 3))

unfoldable pub copy_words : Memory → (dst src rounds i : ℕ) → Memory
copy_words m dst src zero i = m
copy_words m dst src (suc r) i = copy_words (copy_word m dst src i) dst src r (i + 1)

unfoldable pub memcpy : Memory → (dst src length : ℕ) → Memory
unfolding copy_words copy_bytes
memcpy m dst src n =
    if (dst % 4 == 0) && (src % 4 == 0) && (n % 4 == 0)
    then copy_words m dst src (n / 4) 0
    else copy_bytes m dst src n 0

-- The string at an address: its bytes up to the terminator are `cs`, none of which is 0.
abbrev pub Holds : Memory → ℕ → List ℕ → Type 0
Holds m a [] = ◌≡◌ {A = ℕ} (m a) 0
Holds m a (c ∷ cs) = (m a ≡ c) × (c ≢ 0) × Holds m (a + 1) cs
