-- ===== src/Strings/Laws.antt =====
-- What the string and memory routines of Kernel/lib.c compute.
use boke_os.Base.{
  ℕ, zero, suc, ◌+◌, ◌-◌, ◌*◌, ◌/◌, ◌%◌, ◌≤◌, ◌<◌, ◌≡◌, refl, ◌≢◌, ◌⊎◌, inl, inr, ◌↔◌, ◌∙◌, ap, ap₂,
  ◌&&◌, some, ◌==◌, if◌then◌else◌, update, List, [], ◌∷◌, length, arith, Bool-cases, leb, ltb,
}
use mathlib.Core.Path.{subst}
use boke_os.Base.Int.{ℤ, pos, sub_ℕ}
use boke_os.Strings.{
  Memory, Holds, str_len_from, str_len, strcmp_from, strcmp, str_cpy_from, str_cpy, memset,
  copy_bytes, copy_words, copy_word, memcpy,
}

-- The rest of a string, at the address that the loops compute.
Holds-next :
    (m : Memory) (a i : ℕ) (cs : List ℕ) → Holds m (a + i + 1) cs → Holds m (a + (i + 1)) cs
Holds-next m a i cs h = subst (λ x. Holds m x cs) (omega arith) h

str_len_from-length :
    (f : ℕ) (m : Memory) (str i : ℕ) (cs : List ℕ)
    → Holds m (str + i) cs
    → length cs < f
    → str_len_from f m str i ≡ some (i + length cs)
unfolding str_len_from
str_len_from-length zero m str i cs h l = absurd (omega arith)
str_len_from-length (suc f) m str i [] h l = rw (h, str_len_from) (ap some (omega arith))
str_len_from-length (suc f) m str i (c ∷ cs) h l =
    ground (arith, str_len_from-length f m str (i + 1) cs (Holds-next m str i cs h.2))

-- `memset` fills exactly the `n` bytes from `dst` on with the low byte of `c`.
memset_lem :
    (m : Memory) (dst c n a : ℕ)
    → memset m dst c n a ≡ (if leb dst a && ltb a (dst + n) then c % 256 else m a)
unfolding memset
memset_lem m dst c zero a = ground arith
memset_lem m dst c (suc n) a = ground (arith, memset_lem (update m (dst + n) (c % 256)) dst c n a)

strcmp_from-eq :
    (f : ℕ) (m : Memory) (s t i : ℕ) (cs ds : List ℕ)
    → Holds m (s + i) cs
    → Holds m (t + i) ds
    → length cs < f
    → (z : ℤ) × (strcmp_from f m s t i ≡ some z) × ((z ≡ pos 0) ↔ (cs ≡ ds))
unfolding strcmp_from
strcmp_from-eq zero m s t i cs ds h k l = absurd (omega arith)
strcmp_from-eq (suc f) m s t i [] [] h k l = (pos 0, ground arith, (λ _. refl, λ _. refl))
strcmp_from-eq (suc f) m s t i [] (d ∷ ds) h k l =
    (sub_ℕ 0 d, ground arith, (λ e. absurd (k.1 (ground arith)), λ e. cc))
strcmp_from-eq (suc f) m s t i (c ∷ cs) [] h k l =
    (sub_ℕ c 0, ground arith, (λ e. absurd (h.1 (ground arith)), λ e. cc))
strcmp_from-eq (suc f) m s t i (c ∷ cs) (d ∷ ds) h k l = elim (Bool-cases (c == d)) [
  | inl e ↦
      let same : c ≡ d = ground arith in
      let (z, run, iff) =
        strcmp_from-eq f m s t (i + 1) cs ds (Holds-next m s i cs h.2) (Holds-next m t i ds k.2)
          (omega arith) in
      (z, ground arith, (λ q. ap₂ ◌∷◌ same (iff.0 q), λ q. iff.1 (cc)))
  | inr e ↦ (sub_ℕ c d, ground arith, (λ q. absurd (ground arith), λ q. ground arith))
]

-- `str_len` of a string is its length, given more fuel than that.
str_len-length :
    (f : ℕ) (m : Memory) (str : ℕ) (cs : List ℕ)
    → Holds m str cs
    → length cs < f
    → str_len f m str ≡ some (length cs)
unfolding str_len
str_len-length f m str cs h l =
    str_len_from-length f m str 0 cs (subst (λ x. Holds m x cs) (omega arith) h) l
    ∙ ap some (omega arith)

-- `strcmp` of two strings ends, given more fuel than the length of the first, and is 0 exactly when
-- they are equal.
strcmp-eq :
    (f : ℕ) (m : Memory) (s t : ℕ) (cs ds : List ℕ)
    → Holds m s cs
    → Holds m t ds
    → length cs < f
    → (z : ℤ) × (strcmp f m s t ≡ some z) × ((z ≡ pos 0) ↔ (cs ≡ ds))
unfolding strcmp
strcmp-eq f m s t cs ds h k l =
    strcmp_from-eq f m s t 0 cs ds (subst (λ x. Holds m x cs) (omega arith) h)
      (subst (λ x. Holds m x ds) (omega arith) k) l

-- A string is there whatever is written away from it and its terminator.
Holds-update :
    (m : Memory) (a b v : ℕ) (cs : List ℕ)
    → (b < a) ⊎ (a + length cs < b)
    → Holds m a cs
    → Holds (update m b v) a cs
Holds-update m a b v [] away h = ground arith
Holds-update m a b v (c ∷ cs) away h =
    (ground arith, h.1, Holds-update m (a + 1) b v cs (omega arith) h.2)

-- What `str_cpy` has done from `i` on: the rest of the string is copied, with its terminator, and
-- nothing else is written.
pub record Copied (m : Memory) (to : ℕ) (cs : List ℕ) (m' : Memory) : Type 0 where
  pub copy : Holds m' to cs
  pub rest : (a : ℕ) → (a < to) ⊎ (to + length cs < a) → m' a ≡ m a

Copied-cons :
    (m m' : Memory) (to c : ℕ) (cs : List ℕ)
    → c ≢ 0
    → Copied (update m to c) (to + 1) cs m'
    → Copied m to (c ∷ cs) m'
Copied-cons m m' to c cs h w = record {
  copy = (ground (arith, w.rest to), h, w.copy);
  rest = λ a away. ground (arith, w.rest a);
}

str_cpy_from_step :
    (f : ℕ) (m : Memory) (dst src i c : ℕ)
    → m (src + i) ≡ c
    → c ≢ 0
    → str_cpy_from (suc f) m dst src i ≡ str_cpy_from f (update m (dst + i) c) dst src (i + 1)
unfolding str_cpy_from
str_cpy_from_step f m dst src i zero e h = absurd (h refl)
str_cpy_from_step f m dst src i (suc c) e h = rw (e, str_cpy_from)

str_cpy_from-Copied :
    (f : ℕ) (m : Memory) (dst src i : ℕ) (cs : List ℕ)
    → Holds m (src + i) cs
    → (dst + i + length cs < src + i) ⊎ (src + i + length cs < dst + i)
    → length cs < f
    → (m' : Memory) × (str_cpy_from f m dst src i ≡ some (i + length cs, m'))
      × Copied m (dst + i) cs m'
unfolding str_cpy_from
str_cpy_from-Copied zero m dst src i cs h apart l = absurd (omega arith)
str_cpy_from-Copied (suc f) m dst src i [] h apart l = (
  update m (dst + i) 0,
  rw (h, str_cpy_from) (ap (λ n. some (n, update m (dst + i) 0)) (omega arith)),
  record { copy = ground arith; rest = λ a away. ground arith },
)
str_cpy_from-Copied (suc f) m dst src i (c ∷ cs) h apart l =
    let m₁ = update m (dst + i) c in
    let (m', run, w) =
      str_cpy_from-Copied f m₁ dst src (i + 1) cs
        (Holds-next m₁ src i cs (Holds-update m (src + i + 1) (dst + i) c cs (omega arith) h.2))
        (omega arith) (omega arith) in
    (
      m',
      str_cpy_from_step f m dst src i c h.0 h.1 ∙ run ∙ ap (λ n. some (n, m')) (omega arith),
      Copied-cons m m' (dst + i) c cs h.1 (subst (λ x. Copied m₁ x cs m') (omega arith) w),
    )

-- `str_cpy` to a place that does not overlap the string ends, given more fuel than its length,
-- returns the length, copies the string with its terminator, and writes nothing else.
str_cpy-Copied :
    (f : ℕ) (m : Memory) (dst src : ℕ) (cs : List ℕ)
    → Holds m src cs
    → (dst + length cs < src) ⊎ (src + length cs < dst)
    → length cs < f
    → (m' : Memory) × (str_cpy f m dst src ≡ some (length cs, m')) × Copied m dst cs m'
unfolding str_cpy
str_cpy-Copied f m dst src cs h apart l =
    let (m', run, w) =
      str_cpy_from-Copied f m dst src 0 cs (subst (λ x. Holds m x cs) (omega arith) h) (omega arith)
        l in
    (m', run ∙ ap (λ n. some (n, m')) (omega arith), subst (λ x. Copied m x cs m') (omega arith) w)

copy_bytes_lem :
    (m : Memory) (dst src r i a : ℕ)
    → (dst + i + r ≤ src + i) ⊎ (src + i + r ≤ dst + i)
    → copy_bytes m dst src r i a
      ≡ (if leb (dst + i) a && ltb a (dst + i + r) then m (src + i + (a - (dst + i))) else m a)
unfolding copy_bytes
copy_bytes_lem m dst src zero i a h = ground arith
copy_bytes_lem m dst src (suc r) i a h =
    ground (arith, copy_bytes_lem (update m (dst + i) (m (src + i))) dst src r (i + 1) a)

copy_word_lem :
    (m : Memory) (dst src i a : ℕ)
    → (dst + i * 4 + 4 ≤ src + i * 4) ⊎ (src + i * 4 + 4 ≤ dst + i * 4)
    → copy_word m dst src i a ≡ (
        if leb (dst + i * 4) a && ltb a (dst + i * 4 + 4)
        then m (src + i * 4 + (a - (dst + i * 4)))
        else m a)
copy_word_lem m dst src i a h = ground arith

copy_words_lem :
    (m : Memory) (dst src r i a : ℕ)
    → (dst + i * 4 + r * 4 ≤ src + i * 4) ⊎ (src + i * 4 + r * 4 ≤ dst + i * 4)
    → copy_words m dst src r i a ≡ (
        if leb (dst + i * 4) a && ltb a (dst + i * 4 + r * 4)
        then m (src + i * 4 + (a - (dst + i * 4)))
        else m a)
unfolding copy_words
copy_words_lem m dst src zero i a h = ground arith
copy_words_lem m dst src (suc r) i a h = ground (
  arith,
  copy_words_lem (copy_word m dst src i) dst src r (i + 1) a,
  copy_word_lem m dst src i a,
  copy_word_lem m dst src i (src + (i + 1) * 4 + (a - (dst + (i + 1) * 4))),
)

-- `memcpy` between ranges that do not overlap copies the `n` bytes and writes nothing else, by words
-- or by bytes alike.
pub memcpy_lem :
    (m : Memory) (dst src n a : ℕ)
    → (dst + n ≤ src) ⊎ (src + n ≤ dst)
    → memcpy m dst src n a ≡ (if leb dst a && ltb a (dst + n) then m (src + (a - dst)) else m a)
unfolding memcpy
memcpy_lem m dst src n a h =
    ground (arith, copy_words_lem m dst src (n / 4) 0 a, copy_bytes_lem m dst src n 0 a)
