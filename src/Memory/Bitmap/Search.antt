-- ===== src/Memory/Bitmap/Search.antt =====
-- What `find_pages` of Kernel/memory_manager/mem_bitmap.c finds: the first run of free pages that is
-- long enough.
use boke_os.Base.{
  ℕ, zero, suc, ◌+◌, ◌-◌, ◌≤◌, ◌<◌, ◌≡◌, refl, ◌⊎◌, inl, inr, ◌∙◌, sym, ap, Bool-cases, ==_iff,
  Option, none, some, ◌==◌, ltb, true, false, arith,
}
use mathlib.Core.Path.{subst}
use boke_os.Memory.Bitmap.{Heap, find_from, find_pages}

-- The `n` pages from `i` on are free.
abbrev pub AllFree : (ℕ → ℕ) → (i n : ℕ) → Type 0
AllFree pages i n = (j : ℕ) → i ≤ j → j < i + n → pages j ≡ 0

-- `i` is the first place in the map where `n` pages are free.
pub record FirstRun (pages : ℕ → ℕ) (qty n i : ℕ) : Type 0 where
  pub inside : i + n ≤ qty
  pub run : AllFree pages i n
  pub first : (k : ℕ) → k < i → ¬ AllFree pages k n

-- Nowhere in the map are `n` pages free.
abbrev pub NoRun : (ℕ → ℕ) → (qty n : ℕ) → Type 0
NoRun pages qty n = (k : ℕ) → k + n ≤ qty → ¬ AllFree pages k n

AllFree-snoc :
    (pages : ℕ → ℕ) (i n : ℕ) → AllFree pages i n → pages (i + n) ≡ 0 → AllFree pages i (n + 1)
AllFree-snoc pages i n h e j a b = elim (Bool-cases (j == i + n)) [
  | inl q ↦ ap pages ((==_iff j (i + n)).0 q) ∙ e
  | inr q ↦ h j a (ground arith)
]

-- A run of `n` pages that holds a page which is not free is none.
not-AllFree :
    (pages : ℕ → ℕ) (k n i : ℕ) → k ≤ i → i < k + n → (pages i == 0) ≡ false → ¬ AllFree pages k n
not-AllFree pages k n i a b e h = ground (arith, h i a b)

abbrev pub Answer : (ℕ → ℕ) → (qty n : ℕ) → Option ℕ → Type 0
Answer pages qty n found =
    ((i : ℕ) × (found ≡ some i) × FirstRun pages qty n i) ⊎ ((found ≡ none) × NoRun pages qty n)

-- The loop at page `i`, behind `found` free pages from `s` on.
Answer-shift :
    (pages : ℕ → ℕ) (n r i : ℕ) {o : Option ℕ}
    → Answer pages (i + 1 + r) n o
    → Answer pages (i + suc r) n o
Answer-shift pages n r i {o} a = subst (λ q. Answer pages q n o) (omega arith) a

find_from-Answer :
    (pages : ℕ → ℕ) (n r s found i : ℕ)
    → i ≡ s + found
    → found < n
    → AllFree pages s found
    → ((k : ℕ) → k < s → ¬ AllFree pages k n)
    → Answer pages (i + r) n (find_from pages n r i found)
unfolding find_from
find_from-Answer pages n zero s found i e h run earlier = inr (
  refl,
  λ k q. elim (Bool-cases (ltb k s)) [
    | inl low ↦ earlier k (ground arith)
    | inr high ↦ absurd (ground arith)
  ],
)
find_from-Answer pages n (suc r) s found i e h run earlier = elim (Bool-cases (pages i == 0)) [
  | inr used ↦
      rw (used, find_from)
        (Answer-shift pages n r i (
          find_from-Answer pages n r (i + 1) 0 (i + 1) (omega arith) (omega arith)
            (λ j a b. absurd (omega arith))
            (λ k q. elim (Bool-cases (ltb k s)) [
              | inl low ↦ earlier k (ground arith)
              | inr high ↦ not-AllFree pages k n i (omega arith) (ground arith) used
            ])))
  | inl open_ ↦ elim (Bool-cases (found + 1 == n)) [
    | inl full ↦
        rw (open_, find_from)
          (rw full (
            inl (
              s,
              ap some (ground arith),
              record {
                inside = ground arith;
                run = subst (λ m. AllFree pages s m) (ground arith) (one_more open_);
                first = earlier;
              },
            )))
    | inr more ↦
        rw (open_, find_from)
          (rw more (
            Answer-shift pages n r i (
              find_from-Answer pages n r s (found + 1) (i + 1) (omega arith) (ground arith)
                (one_more open_) earlier)))
  ]
]
  where
    one_more : (pages i == 0) ≡ true → AllFree pages s (found + 1)
    one_more q = AllFree-snoc pages s found run (ap pages (sym e) ∙ (==_iff (pages i) 0).0 q)

-- `find_pages` from the start of the map on gives the first run that is long enough, if there is one.
pub find_pages-Answer : (n : ℕ) (h : Heap) → 0 < n → Answer h.pages h.page_qty n (find_pages n 0 h)
unfolding find_pages
find_pages-Answer n h p =
    subst (λ q. Answer h.pages q n (find_pages n 0 h)) (omega arith)
      (find_from-Answer h.pages n (h.page_qty - 0) 0 0 0 refl p (λ j a b. absurd (omega arith))
        (λ k q. absurd (omega arith)))
