-- ===== src/Base/Swap.antt =====
-- The loop that exchanges the ends of an array and moves inwards, as `uint_to_base` of
-- Kernel/naiveConsole.c and `reverse` of Userland/SampleCodeModule/utils.c have it: it reverses.
use Prim.Native.Nat.{ℕ, zero, suc, ◌+◌, ◌-◌, ◌*◌, ◌≤◌, ◌<◌}
use mathlib.Core.Path.{◌≡◌, refl, ◌∙◌, sym, ap₂}
use mathlib.Core.Logic.{inl, inr}
use mathlib.Core.Bool.{true, ◌&&◌}
use mathlib.Core.List.{List, [], ◌∷◌, ◌++◌, reverse, reverse-cons}
use native.Mathlib.Omega.{arith}
use boke_os.Base.Tests.{ltb, leb, ◌==◌, if◌then◌else◌, Bool-cases, ==_iff}
use boke_os.Base.Lists.{length, get_or, set, length-set, length-append}

-- `while (p1 < p2)`: exchange and move both, with the rounds that are left. `p1 < p2` fails at the
-- latest after as many rounds as there are characters.
unfoldable pub swap_ends : ℕ → (p1 p2 : ℕ) → List ℕ → List ℕ
swap_ends zero p1 p2 cs = cs
swap_ends (suc r) p1 p2 cs =
    let tmp = get_or cs p1 0 in
    let rest = swap_ends r (p1 + 1) (p2 - 1) (set (set cs p1 (get_or cs p2 0)) p2 tmp) in
    if ltb p1 p2 then rest else cs

get_or-set :
    (xs : List ℕ) (i j v : ℕ)
    → i < length xs
    → get_or (set xs i v) j 0 ≡ (if j == i then v else get_or xs j 0)
get_or-set [] i j v h = absurd (omega arith)
get_or-set (x ∷ xs) zero zero v h = refl
get_or-set (x ∷ xs) zero (suc j) v h = ground arith
get_or-set (x ∷ xs) (suc i) zero v h = ground arith
get_or-set (x ∷ xs) (suc i) (suc j) v h = ground (arith, get_or-set xs i j v)

length-swap_ends : (r p q : ℕ) (cs : List ℕ) → length (swap_ends r p q cs) ≡ length cs
unfolding swap_ends
length-swap_ends zero p q cs = refl
length-swap_ends (suc r) p q cs =
    let cs' = set (set cs p (get_or cs q 0)) q (get_or cs p 0) in
    ground (
      arith,
      length-swap_ends r (p + 1) (q - 1) cs',
      length-set (set cs p (get_or cs q 0)) q (get_or cs p 0),
      length-set cs p (get_or cs q 0),
    )

add-sub_self : (p q : ℕ) → p + q - p ≡ q
add-sub_self p q = omega arith

middle : (p q i : ℕ) → p ≤ i → i ≤ q → q ≤ p → p + q - i ≡ i
middle p q i a b c = omega arith

-- One exchange, and the rest of the way inwards.
exchange :
    (g g' : ℕ → ℕ) (p q i : ℕ)
    → p < q
    → ((j : ℕ) → g' j ≡ (if j == q then g p else if j == p then g q else g j))
    → (if leb (p + 1) i && leb i (q - 1) then g' (p + 1 + (q - 1) - i) else g' i)
      ≡ (if leb p i && leb i q then g (p + q - i) else g i)
exchange g g' p q i l e = elim (Bool-cases (i == p)) [
  | inl first ↦
      let at : i ≡ p = (==_iff i p).0 first in rw (at, add-sub_self p q) (ground (arith, e p))
  | inr after ↦ elim (Bool-cases (i == q)) [
    | inl last ↦
        let at : i ≡ q = (==_iff i q).0 last in
        let back : p + q - q ≡ p = omega arith in rw (at, back) (ground (arith, e q))
    | inr before ↦
        let same : p + 1 + (q - 1) - i ≡ p + q - i = omega arith in
        rw same (ground (arith, e (p + q - i), e i))
  ]
]

get_or-swap_ends :
    (r p q : ℕ) (cs : List ℕ) (i : ℕ)
    → q < length cs
    → q ≤ p + 2 * r
    → get_or (swap_ends r p q cs) i 0
      ≡ (if leb p i && leb i q then get_or cs (p + q - i) 0 else get_or cs i 0)
unfolding swap_ends
get_or-swap_ends zero p q cs i h k = elim (Bool-cases (leb p i && leb i q)) [
  | inl inside ↦ rw (inside, middle p q i (ground arith) (ground arith) (omega arith))
  | inr outside ↦ rw outside
]
get_or-swap_ends (suc r) p q cs i h k = elim (Bool-cases (ltb p q)) [
  | inr met ↦ elim (Bool-cases (leb p i && leb i q)) [
    | inl inside ↦ rw (met, inside, middle p q i (ground arith) (ground arith) (ground arith))
    | inr outside ↦ rw (met, outside)
  ]
  | inl apart ↦
      let a = get_or cs p 0 in
      let b = get_or cs q 0 in
      let cs' = set (set cs p b) q a in
      let len : length (set cs p b) ≡ length cs = length-set cs p b in
      let len' : length cs' ≡ length cs = length-set (set cs p b) q a ∙ len in
      let rec = get_or-swap_ends r (p + 1) (q - 1) cs' i (ground arith) (ground arith) in
      let at = λ (j : ℕ). get_or-set (set cs p b) q j a (ground arith) in
      let at' = λ (j : ℕ). get_or-set cs p j b (ground arith) in
      rw apart (
        rec
        ∙ exchange (λ j. get_or cs j 0) (λ j. get_or cs' j 0) p q i (ground arith)
            (λ j. ground (arith, at j, at' j)))
]

-- Two lists of the same length with the same characters are equal.
eq_of_get_or :
    (xs ys : List ℕ)
    → length xs ≡ length ys
    → ((i : ℕ) → i < length xs → get_or xs i 0 ≡ get_or ys i 0)
    → xs ≡ ys
eq_of_get_or [] [] e h = refl
eq_of_get_or [] (y ∷ ys) e h = absurd (omega arith)
eq_of_get_or (x ∷ xs) [] e h = absurd (omega arith)
eq_of_get_or (x ∷ xs) (y ∷ ys) e h =
    ap₂ ◌∷◌ (h 0 (omega arith)) (eq_of_get_or xs ys (omega arith) (λ i l. h (suc i) (omega arith)))

get_or-snoc :
    (xs : List ℕ) (x i : ℕ)
    → get_or (xs ++ x ∷ []) i 0
      ≡ (if ltb i (length xs) then get_or xs i 0 else if i == length xs then x else 0)
get_or-snoc [] x zero = refl
get_or-snoc [] x (suc i) = ground arith
get_or-snoc (y ∷ xs) x zero = ground arith
get_or-snoc (y ∷ xs) x (suc i) = get_or-snoc xs x i ∙ ground arith

pub length-reverse : (xs : List ℕ) → length (reverse xs) ≡ length xs
length-reverse [] = refl
length-reverse (x ∷ xs) =
    rw reverse-cons (length-append (reverse xs) (x ∷ []) ∙ omega (arith, length-reverse xs))

get_or-reverse :
    (xs : List ℕ) (i : ℕ)
    → i < length xs
    → get_or (reverse xs) i 0 ≡ get_or xs (length xs - 1 - i) 0
get_or-reverse [] i h = absurd (omega arith)
get_or-reverse (x ∷ xs) i h = rw reverse-cons (
    get_or-snoc (reverse xs) x i ∙ elim (Bool-cases (ltb i (length xs))) [
      | inl inside ↦
          let later : suc (length xs) - 1 - i ≡ suc (length xs - 1 - i) = ground arith in
          rw (length-reverse xs, inside, later) (get_or-reverse xs i (ground arith))
      | inr outside ↦
          let last : i ≡ length xs = ground arith in
          let first : suc (length xs) - 1 - length xs ≡ 0 = omega arith in
          rw (length-reverse xs, last, first) (ground arith)
    ])

-- From both ends of the list, the loop reverses it.
pub swap_ends-reverse : (cs : List ℕ) → swap_ends (length cs) 0 (length cs - 1) cs ≡ reverse cs
swap_ends-reverse [] = unfold swap_ends in refl
swap_ends-reverse (c ∷ cs) =
    let len = length-swap_ends (length (c ∷ cs)) 0 (length (c ∷ cs) - 1) (c ∷ cs) in
    eq_of_get_or _ _ (len ∙ sym (length-reverse (c ∷ cs))) (λ i h.
      get_or-swap_ends (length (c ∷ cs)) 0 (length (c ∷ cs) - 1) (c ∷ cs) i (omega arith)
        (omega arith)
      ∙ whole i (omega (arith, len))
      ∙ sym (get_or-reverse (c ∷ cs) i (omega (arith, len))))
  where
    whole :
        (i : ℕ)
        → i < length (c ∷ cs)
        → (if leb 0 i && leb i (length (c ∷ cs) - 1)
            then get_or (c ∷ cs) (0 + (length (c ∷ cs) - 1) - i) 0
            else get_or (c ∷ cs) i 0)
          ≡ get_or (c ∷ cs) (length (c ∷ cs) - 1 - i) 0
    whole i h =
        let same : 0 + (length (c ∷ cs) - 1) - i ≡ length (c ∷ cs) - 1 - i = omega arith in
        let inside : (leb 0 i && leb i (length (c ∷ cs) - 1)) ≡ true = ground arith in
        rw (inside, same)
