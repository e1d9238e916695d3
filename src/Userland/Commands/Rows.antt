-- ===== src/Userland/Commands/Rows.antt =====
-- What the rows of `args` hold after a word was written into one.
use mathlib.Core.Path.{fun_ext}
use boke_os.Base.{
  ℕ, zero, suc, ◌+◌, ◌<◌, ◌≢◌, ◌≡◌, refl, ap, ap₂, ◌∙◌, arith, Bool, true, false, not, ◌&&◌, ◌||◌,
  List, [], ◌∷◌, ◌++◌, ◌==◌, if◌then◌else◌, length,
}
use boke_os.Userland.Commands.Words.{row_from}

-- The characters of a word: none that ends a word, a command or the line.
abbrev pub plain : ℕ → Bool
plain c = not (c == 32 || c == 0 || c == 124 || c == 38)

abbrev pub AllPlain : List ℕ → Type 0
AllPlain [] = Unit
AllPlain (c ∷ cs) = (plain c ≡ true) × AllPlain cs

-- The characters stand in the line from `i` on.
abbrev pub At : (ℕ → ℕ) → ℕ → List ℕ → Type 0
At command i [] = Unit
At command i (c ∷ cs) = (command i ≡ c) × At command (i + 1) cs

-- A word in the row `w`, from `j` on.
abbrev pub put : (ℕ → ℕ → ℕ) → ℕ → ℕ → ℕ → ℕ → ℕ → ℕ
put args w j c v k = if v == w && k == j then c else args v k

unfoldable pub fill : (ℕ → ℕ → ℕ) → ℕ → ℕ → List ℕ → ℕ → ℕ → ℕ
fill args w j [] = args
fill args w j (c ∷ cs) = fill (put args w j c) w (j + 1) cs

pub put-row : (args : ℕ → ℕ → ℕ) (w j c v : ℕ) → v ≢ w → put args w j c v ≡ args v
put-row args w j c v h = fun_ext (λ k. ground arith)

pub fill-row :
    (args : ℕ → ℕ → ℕ) (w j : ℕ) (cs : List ℕ) (v : ℕ) → v ≢ w → fill args w j cs v ≡ args v
unfolding fill
fill-row args w j [] v h = refl
fill-row args w j (c ∷ cs) v h = fill-row (put args w j c) w (j + 1) cs v h ∙ put-row args w j c v h

fill-before :
    (args : ℕ → ℕ → ℕ) (w j : ℕ) (cs : List ℕ) (k : ℕ) → k < j → fill args w j cs w k ≡ args w k
unfolding fill
fill-before args w j [] k h = refl
fill-before args w j (c ∷ cs) k h =
    fill-before (put args w j c) w (j + 1) cs k (omega arith) ∙ ground arith

pub fill-At : (args : ℕ → ℕ → ℕ) (w j : ℕ) (cs : List ℕ) → At (fill args w j cs w) j cs
unfolding fill
fill-At args w j [] = tt
fill-At args w j (c ∷ cs) = (
  fill-before (put args w j c) w (j + 1) cs j (omega arith) ∙ ground arith,
  fill-At (put args w j c) w (j + 1) cs,
)

abbrev pub NonZero : List ℕ → Type 0
NonZero [] = Unit
NonZero (c ∷ cs) = (c ≢ 0) × NonZero cs

pub AllPlain-NonZero : (cs : List ℕ) → AllPlain cs → NonZero cs
AllPlain-NonZero [] p = tt
AllPlain-NonZero (c ∷ cs) p = ((λ e. ground (arith, p.0, e)), AllPlain-NonZero cs p.1)

-- A row that holds characters and a zero behind them.
pub row_from-At :
    (n : ℕ) (row : ℕ → ℕ) (j : ℕ) (cs : List ℕ)
    → NonZero cs
    → At row j cs
    → row (j + length cs) ≡ 0
    → length cs < n
    → row_from n row j ≡ cs
unfolding row_from
row_from-At zero row j cs p a z l = absurd (omega arith)
row_from-At (suc n) row j [] p a z l =
    let here : j + 0 ≡ j = omega arith in
    let zeroed : (row j == 0) ≡ true = ground (arith, rw here at z) in rw zeroed refl
row_from-At (suc n) row j (c ∷ cs) p a z l =
    let more : (row j == 0) ≡ false = ground (arith, a.0, p.0) in
    let next : j + 1 + length cs ≡ j + suc (length cs) = omega arith in
    let rest = row_from-At n row (j + 1) cs p.1 a.1 (ap row next ∙ z) (omega arith) in
    rw more (ap₂ ◌∷◌ a.0 rest)

pub At-same :
    (row row' : ℕ → ℕ) (i : ℕ) (cs : List ℕ)
    → ((k : ℕ) → k < i + length cs → row' k ≡ row k)
    → At row i cs
    → At row' i cs
At-same row row' i [] h a = tt
At-same row row' i (c ∷ cs) h a =
    (h i (omega arith) ∙ a.0, At-same row row' (i + 1) cs (λ k l. h k (omega arith)) a.1)

pub At-append :
    (row : ℕ → ℕ) (i : ℕ) (xs ys : List ℕ)
    → At row i xs
    → At row (i + length xs) ys
    → At row i (xs ++ ys)
At-append row i [] ys a b = let e : i + 0 ≡ i = omega arith in rw e at b
At-append row i (x ∷ xs) ys a b =
    let e : i + suc (length xs) ≡ i + 1 + length xs = omega arith in
    (a.0, At-append row (i + 1) xs ys a.1 (rw e at b))
