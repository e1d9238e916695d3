-- ===== src/Memory/Bitmap/Count.antt =====
-- How many pages of the map of Kernel/memory_manager/mem_bitmap.c are free, before and after a run of
-- them is taken.
use boke_os.Base.{ℕ, zero, suc, ◌+◌, ◌-◌, ◌≤◌, ◌<◌, ◌≡◌, ◌⊎◌, inl, inr, Bool-cases, ltb, arith}
use Prim.Native.Nat.{min}
use boke_os.Memory.Bitmap.{free_pages}
use boke_os.Memory.Bitmap.Search.{AllFree}

module _ (pages taken : ℕ → ℕ) (i n : ℕ) (run : AllFree pages i n)
    (used : (j : ℕ) → i ≤ j → j < i + n → 0 < taken j)
    (same : (j : ℕ) → (j < i) ⊎ (i + n ≤ j) → taken j ≡ pages j) where
  free_pages-below : (q : ℕ) → free_pages taken q + (min q (i + n) - i) ≡ free_pages pages q
  unfolding free_pages
  free_pages-below zero = omega arith
  free_pages-below (suc q) = elim (Bool-cases (ltb q i)) [
    | inl before ↦ ground (arith, same q (inl (ground arith)), free_pages-below q)
    | inr past ↦ elim (Bool-cases (ltb q (i + n))) [
      | inl inside ↦ ground (
        arith,
        run q (ground arith) (ground arith),
        used q (ground arith) (ground arith),
        free_pages-below q,
      )
      | inr behind ↦ ground (arith, same q (inr (ground arith)), free_pages-below q)
    ]
  ]

  -- Taking a run of `n` free pages leaves `n` fewer.
  pub free_pages-taken : (q : ℕ) → i + n ≤ q → free_pages taken q + n ≡ free_pages pages q
  free_pages-taken q h = omega (arith, free_pages-below q)
