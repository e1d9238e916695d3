-- ===== src/Userland/Commands/Output.antt =====
-- What `cat` does with its whole input.
use boke_os.Base.{
  ℕ, ◌+◌, ◌≤◌, ◌<◌, ◌≢◌, ◌≡◌, refl, arith, Bool-cases, inl, inr, true, false, List, [], ◌∷◌, ◌++◌,
  ltb, ◌==◌, if◌then◌else◌, length, length-append,
}
use mathlib.Core.List.{append_assoc}
use boke_os.Base.Run.{ok, fault}
use boke_os.Userland.Commands.Words.{row_from}
use boke_os.Userland.Commands.Rows.{At, NonZero, row_from-At, At-same, At-append}
use boke_os.Userland.Commands.Filters.{cat, cat_from}

-- The characters of a line: no end of the line, no zero, no EOF.
abbrev pub Ordinary : List ℕ → Type 0
Ordinary [] = Unit
Ordinary (c ∷ cs) = (c ≢ 10) × (c ≢ 0) × (c ≢ 1) × Ordinary cs

Ordinary-NonZero : (cs : List ℕ) → Ordinary cs → NonZero cs
Ordinary-NonZero [] o = tt
Ordinary-NonZero (c ∷ cs) o = (o.1, Ordinary-NonZero cs o.3)

-- More characters than the 256 of `comm` without the end of a line are written behind it.
cat_from-overflow :
    (cs rest : List ℕ) (comm : ℕ → ℕ) (i : ℕ)
    → Ordinary cs
    → i ≤ 256
    → 256 < i + length cs
    → cat_from comm i (cs ++ rest) ≡ fault
unfolding cat_from
cat_from-overflow [] rest comm i o l h = absurd (omega arith)
cat_from-overflow (c ∷ cs) rest comm i o l h =
    let x : (c == 1) ≡ false = ground (arith, o.2) in
    let y : (c == 10) ≡ false = ground (arith, o.0) in
    elim (Bool-cases (ltb i 256)) [
      | inl inside ↦
          let more =
            cat_from-overflow cs rest (λ k. if k == i then c else comm k) (i + 1) o.3 (ground arith)
              (omega arith) in
          rw (x, y, inside, more) refl
      | inr outside ↦ rw (x, outside) refl
    ]

NonZero-snoc : (pre : List ℕ) (c : ℕ) → NonZero pre → c ≢ 0 → NonZero (pre ++ c ∷ [])
NonZero-snoc [] c p n = (n, tt)
NonZero-snoc (d ∷ pre) c p n = (p.0, NonZero-snoc pre c p.1 n)

-- One more character in `comm`.
At-snoc :
    (comm : ℕ → ℕ) (pre : List ℕ) (i c : ℕ)
    → i ≡ length pre
    → At comm 0 pre
    → At (λ k. if k == i then c else comm k) 0 (pre ++ c ∷ [])
At-snoc comm pre i c e a =
    At-append _ 0 pre (c ∷ []) (At-same comm _ 0 pre (λ k l. ground (arith, e, l)) a)
      (ground (arith, e), tt)

-- What is printed of a line that is complete.
printed-line :
    (comm : ℕ → ℕ) (pre : List ℕ) (i : ℕ)
    → i ≡ length pre
    → NonZero pre
    → At comm 0 pre
    → i < 255
    → row_from 256 (λ k. if k == i + 1 then 0 else if k == i then 10 else comm k) 0 ≡ pre ++ 10 ∷ []
printed-line comm pre i e p a h =
    let n = length-append pre (10 ∷ []) in
    let line = At-snoc comm pre i 10 e a in
    row_from-At 256 _ 0 (pre ++ 10 ∷ []) (NonZero-snoc pre 10 p (λ z. absurd (omega arith)))
      (At-same _ _ 0 (pre ++ 10 ∷ []) (λ k l. ground (arith, e, n, l)) line) (ground (arith, e, n))
      (omega (arith, e, n))

cat_from-line :
    (pre l cs out : List ℕ) (comm : ℕ → ℕ) (i : ℕ)
    → Ordinary l
    → NonZero pre
    → i ≡ length pre
    → At comm 0 pre
    → i + length l < 255
    → ((comm' : ℕ → ℕ) → cat_from comm' 0 cs ≡ ok out)
    → cat_from comm i (l ++ 10 ∷ cs) ≡ ok (l ++ (10 ∷ ((pre ++ (l ++ 10 ∷ [])) ++ 10 ∷ out)))
unfolding cat_from
cat_from-line pre [] cs out comm i o p e a h next =
    let inside : ltb i 256 ≡ true = ground arith in
    let after : ltb (i + 1) 256 ≡ true = ground arith in
    let line = printed-line comm pre i e p a (omega arith) in rw (inside, after, line, next) refl
cat_from-line pre (c ∷ l) cs out comm i o p e a h next =
    let x : (c == 1) ≡ false = ground (arith, o.2) in
    let y : (c == 10) ≡ false = ground (arith, o.0) in
    let inside : ltb i 256 ≡ true = ground arith in
    let n = length-append pre (c ∷ []) in
    let rest =
      cat_from-line (pre ++ c ∷ []) l cs out (λ k. if k == i then c else comm k) (i + 1) o.3
        (NonZero-snoc pre c p o.1) (omega (arith, e, n)) (At-snoc comm pre i c e a) (omega arith)
        next in
    rw (x, y, inside, rest, append_assoc pre (c ∷ []) (l ++ 10 ∷ [])) refl

-- Lines with their ends, and what `cat` shows of them.
unfoldable pub text_of : List (List ℕ) → List ℕ
text_of [] = []
text_of (l ∷ ls) = l ++ 10 ∷ text_of ls

unfoldable pub shown : List (List ℕ) → List ℕ
shown [] = 1 ∷ []
shown (l ∷ ls) = l ++ (10 ∷ ((l ++ 10 ∷ []) ++ 10 ∷ shown ls))

abbrev pub ShortLines : List (List ℕ) → Type 0
ShortLines [] = Unit
ShortLines (l ∷ ls) = Ordinary l × (length l < 255) × ShortLines ls

cat_from-lines :
    (ls : List (List ℕ)) (rest : List ℕ) (comm : ℕ → ℕ)
    → ShortLines ls
    → cat_from comm 0 (text_of ls ++ 1 ∷ rest) ≡ ok (shown ls)
unfolding text_of shown
cat_from-lines [] rest comm h = unfold cat_from in refl
cat_from-lines (l ∷ ls) rest comm h = rw (append_assoc l (10 ∷ text_of ls) (1 ∷ rest)) (
    cat_from-line [] l (text_of ls ++ 1 ∷ rest) (shown ls) comm 0 h.0 tt refl tt
      (omega (arith, h.1)) (λ comm'. cat_from-lines ls rest comm' h.2))

-- `cat` on lines of at most 254 characters and an EOF shows each line as it is typed, then once more
-- with an empty line behind it, and the EOF at the end.
pub cat-lines :
    (ls : List (List ℕ)) (rest : List ℕ)
    → ShortLines ls
    → cat (text_of ls ++ 1 ∷ rest) ≡ ok (shown ls)
unfolding cat
cat-lines ls rest h = cat_from-lines ls rest (λ _. 0) h

-- A line of more than 256 characters is written behind the 256 bytes that `cat` has for it.
cat-overflow : (cs rest : List ℕ) → Ordinary cs → 256 < length cs → cat (cs ++ rest) ≡ fault
unfolding cat
cat-overflow cs rest o h = cat_from-overflow cs rest (λ _. 0) 0 o (omega arith) (omega arith)
