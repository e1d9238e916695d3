-- ===== src/Userland/Utils/Compare.antt =====
-- What the comparisons and the tokens of Userland/SampleCodeModule/utils.c come to.
use boke_os.Base.{
  ℕ, zero, suc, ◌<◌, ◌≡◌, ◌≢◌, refl, ◌∙◌, ap, inl, inr, ◌⊎◌, Bool-cases, Option, none, some, List,
  [], ◌∷◌, ◌++◌, ltb, if◌then◌else◌, length, arith,
}
use boke_os.Base.Int.{ℤ, pos, negsuc}
use boke_os.Userland.Utils.{strcmp, strncmp, strtok, strtok_from}

-- The order of two strings, character by character, where a string that ends comes first.
pub data Before : List ℕ → List ℕ → Type 0 where
  ends : {d : ℕ} {ds : List ℕ} → Before [] (d ∷ ds)
  smaller : {c d : ℕ} {cs ds : List ℕ} → c < d → Before (c ∷ cs) (d ∷ ds)
  later : {c : ℕ} {cs ds : List ℕ} → Before cs ds → Before (c ∷ cs) (c ∷ ds)

-- What the answer of `strcmp` says of the two strings.
abbrev pub Compared : List ℕ → List ℕ → ℤ → Type 0
Compared cs ds z =
    ((z ≡ pos 0) × (cs ≡ ds)) ⊎ ((z ≡ pos 1) × Before ds cs) ⊎ ((z ≡ negsuc 0) × Before cs ds)

Compared-cons : (c : ℕ) (cs ds : List ℕ) (z : ℤ) → Compared cs ds z → Compared (c ∷ cs) (c ∷ ds) z
Compared-cons c cs ds z h = elim h [
  | inl (e, q) ↦ inl (e, ap (λ x. c ∷ x) q)
  | inr (inl (e, q)) ↦ inr (inl (e, later q))
  | inr (inr (e, q)) ↦ inr (inr (e, later q))
]

-- `strcmp` is 0 for equal strings, 1 if the second comes first, and -1 if the first does.
strcmp-Compared : (cs ds : List ℕ) → Compared cs ds (strcmp cs ds)
unfolding strcmp
strcmp-Compared [] [] = inl (refl, refl)
strcmp-Compared [] (d ∷ ds) = inr (inr (refl, ends))
strcmp-Compared (c ∷ cs) [] = inr (inl (refl, ends))
strcmp-Compared (c ∷ cs) (d ∷ ds) = elim (Bool-cases (ltb d c)) [
  | inl above ↦ inr (inl (rw (above, strcmp), smaller (ground arith)))
  | inr le ↦ elim (Bool-cases (ltb c d)) [
    | inl below ↦ inr (inr (rw (le, strcmp) (rw below), smaller (ground arith)))
    | inr ge ↦
        let same : c ≡ d = ground arith in
        rw (le, strcmp)
          (rw ge (rw (← same) (Compared-cons c cs ds (strcmp cs ds) (strcmp-Compared cs ds))))
  ]
]

-- `strncmp` of a string with itself is -1 when the string is shorter than the bound, and 0 otherwise.
strncmp_self :
    (cs : List ℕ) (n : ℕ) → strncmp cs cs n ≡ (if ltb (length cs) n then negsuc 0 else pos 0)
unfolding strncmp
strncmp_self [] zero = refl
strncmp_self [] (suc n) = ground arith
strncmp_self (c ∷ cs) zero = ground arith
strncmp_self (c ∷ cs) (suc n) = ground (arith, strncmp_self cs n)

-- No character of the string is the delimiter.
abbrev pub Free : (delim : ℕ) → List ℕ → Type 0
Free delim [] = Unit
Free delim (c ∷ cs) = (c ≢ delim) × Free delim cs

strtok_from-token :
    (delim : ℕ) (cs rest : List ℕ)
    → Free delim cs
    → strtok_from delim (cs ++ delim ∷ rest) ≡ (cs, rest)
unfolding strtok_from
strtok_from-token delim [] rest h = ground arith
strtok_from-token delim (c ∷ cs) rest h = ground (arith, strtok_from-token delim cs rest h.1)

strtok_from-last : (delim : ℕ) (cs : List ℕ) → Free delim cs → strtok_from delim cs ≡ (cs, [])
unfolding strtok_from
strtok_from-last delim [] h = refl
strtok_from-last delim (c ∷ cs) h = ground (arith, strtok_from-last delim cs h.1)

-- Tokens with the delimiter behind each, and a last one.
abbrev pub joined : (delim : ℕ) → List (List ℕ) → (last : List ℕ) → List ℕ
joined delim [] last = last
joined delim (t ∷ ts) last = t ++ delim ∷ joined delim ts last

abbrev pub AllFree : (delim : ℕ) → List (List ℕ) → Type 0
AllFree delim [] = Unit
AllFree delim (t ∷ ts) = Free delim t × AllFree delim ts

-- What the calls of `strtok` with NULL give after a string: as many as there are tokens, and two.
abbrev pub calls : (delim : ℕ) → List (List ℕ) → (static_str : List ℕ) → List (Option (List ℕ))
calls delim [] s = let (t, rest) = strtok none delim s in t ∷ (strtok none delim rest).0 ∷ []
calls delim (_ ∷ ts) s = let (t, rest) = strtok none delim s in t ∷ calls delim ts rest

abbrev pub all_some : List (List ℕ) → List (Option (List ℕ)) → List (Option (List ℕ))
all_some [] behind = behind
all_some (t ∷ ts) behind = some t ∷ all_some ts behind

not_empty :
    (delim : ℕ) (t rest : List ℕ)
    → strtok none delim (t ++ delim ∷ rest)
      ≡ (let (u, r) = strtok_from delim (t ++ delim ∷ rest) in (some u, r))
unfolding strtok
not_empty delim [] rest = refl
not_empty delim (c ∷ cs) rest = refl

strtok-token :
    (delim : ℕ) (t rest : List ℕ)
    → Free delim t
    → strtok none delim (t ++ delim ∷ rest) ≡ (some t, rest)
strtok-token delim t rest h =
    not_empty delim t rest
    ∙ ap (λ (p : List ℕ × List ℕ). (some p.0, p.1)) (strtok_from-token delim t rest h)

strtok-last :
    (delim : ℕ) (last : List ℕ)
    → Free delim last
    → last ≢ []
    → strtok none delim last ≡ (some last, [])
unfolding strtok
strtok-last delim [] h some_ = absurd (some_ refl)
strtok-last delim (c ∷ cs) h some_ =
    ap (λ (p : List ℕ × List ℕ). (some p.0, p.1)) (strtok_from-last delim (c ∷ cs) h)

-- From a string joined of tokens without the delimiter, the last of them not empty, the calls of `strtok`
-- with NULL give back the tokens, the empty ones too, and then NULL.
strtok-joined :
    (delim : ℕ) (ts : List (List ℕ)) (last : List ℕ)
    → AllFree delim ts
    → Free delim last
    → last ≢ []
    → calls delim ts (joined delim ts last) ≡ all_some ts (some last ∷ none ∷ [])
strtok-joined delim [] last h k some_ = rw (strtok-last delim last k some_) (unfold strtok in refl)
strtok-joined delim (t ∷ ts) last h k some_ =
    rw (strtok-token delim t (joined delim ts last) h.0)
      (ap (λ x. some t ∷ x) (strtok-joined delim ts last h.1 k some_))
