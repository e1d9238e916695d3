-- ===== src/Memory/Bitmap/Blocks.antt =====
-- The blocks that `malloc` of Kernel/memory_manager/mem_bitmap.c marks in the map, and how `free`
-- walks over one.
use boke_os.Base.{
  ℕ, zero, suc, ◌+◌, ◌-◌, ◌≤◌, ◌<◌, ◌≡◌, ◌⊎◌, inl, inr, Bool, Bool-cases, ◌==◌, ◌&&◌, if◌then◌else◌,
  update, ltb, leb, arith,
}
use boke_os.Base.Run.{ok}
use boke_os.Memory.Bitmap.{mark_of, mark, walk_back, clear_from}

-- The map with `c` in the `n` bytes from `i` on.
abbrev pub within : (i n a : ℕ) → Bool
within i n a = leb i a && ltb a (i + n)

mark_lem :
    (first n r i : ℕ) (pages : ℕ → ℕ) (a : ℕ)
    → mark first n r i pages a ≡ (if within i r a then mark_of first n a else pages a)
unfolding mark
mark_lem first n zero i pages a = ground arith
mark_lem first n (suc r) i pages a =
    ground (arith, mark_lem first n r (i + 1) (update pages i (mark_of first n i)) a)

-- The map has a block of the `n` pages from `i` on: single, or between its bounds.
pub record Block (pages : ℕ → ℕ) (i n : ℕ) : Type 0 where
  pub some_pages : 0 < n
  pub bytes : (j : ℕ) → i ≤ j → j < i + n → pages j ≡ mark_of i n j

-- `malloc` marks a block, and leaves the other pages alone.
pub mark-Block :
    (pages : ℕ → ℕ) (i n : ℕ)
    → 0 < n
    → Block (mark i n n i pages) i n
      × ((a : ℕ) → (a < i) ⊎ (i + n ≤ a) → mark i n n i pages a ≡ pages a)
mark-Block pages i n p = (
  record { some_pages = p; bytes = λ j a b. ground (arith, mark_lem i n n i pages j) },
  λ a out. ground (arith, mark_lem i n n i pages a),
)

-- A page of a block is not free.
pub mark_of-pos : (i n j : ℕ) → 0 < mark_of i n j
unfolding mark_of
mark_of-pos i n j = ground arith

pub mark_of-single : (i j : ℕ) → i ≤ j → j < i + 1 → mark_of i 1 j ≡ 5
unfolding mark_of
mark_of-single i j a b = ground arith

pub mark_of-first : (i n : ℕ) → 1 < n → mark_of i n i ≡ 3
unfolding mark_of
mark_of-first i n p = ground arith

mark_of-last : (i n j : ℕ) → 1 < n → j ≡ i + n - 1 → mark_of i n j ≡ 4
unfolding mark_of
mark_of-last i n j p e = ground arith

pub mark_of-later : (i n j : ℕ) → 1 < n → i < j → (mark_of i n j ≡ 4) ⊎ (mark_of i n j ≡ 1)
unfolding mark_of
mark_of-later i n j p q = ground arith

mark_of-earlier : (i n j : ℕ) → 1 < n → j < i + n - 1 → (mark_of i n j ≡ 3) ⊎ (mark_of i n j ≡ 1)
unfolding mark_of
mark_of-earlier i n j p q = ground arith

pub mark_of-several : (i n j : ℕ) → 1 < n → mark_of i n j < 5
unfolding mark_of
mark_of-several i n j p = ground arith

-- Only the first page of a block carries the byte of a start.
pub mark_of-bound : (k m : ℕ) → (mark_of k m k ≡ 3) ⊎ (mark_of k m k ≡ 5)
unfolding mark_of
mark_of-bound k m = ground arith

pub mark_of-inner : (i n k : ℕ) → i < k → k < i + n → (mark_of i n k ≡ 4) ⊎ (mark_of i n k ≡ 1)
mark_of-inner i n k p q = mark_of-later i n k (omega arith) p

pub walk_back-first :
    (pages : ℕ → ℕ) (i n j : ℕ)
    → 1 < n
    → Block pages i n
    → i ≤ j
    → j < i + n
    → walk_back pages j ≡ ok i
unfolding walk_back
walk_back-first pages i n zero p b l u = ground (arith, b.bytes 0 l u, mark_of-first i n p)
walk_back-first pages i n (suc j) p b l u = elim (Bool-cases (i == suc j)) [
  | inl at ↦ ground (arith, b.bytes (suc j) l u, mark_of-first i n p)
  | inr past ↦
      let i_le_j : i ≤ j = ground arith in
      ground (
        arith,
        b.bytes (suc j) l u,
        mark_of-later i n (suc j) p,
        walk_back-first pages i n j p b i_le_j,
      )
]

pub clear_from-Cleared :
    (i n r k : ℕ) (pages : ℕ → ℕ)
    → 1 < n
    → ((j : ℕ) → k ≤ j → j < i + n → pages j ≡ mark_of i n j)
    → k < i + n
    → i + n ≤ k + r
    → (pages' : ℕ → ℕ) × (clear_from r k pages ≡ ok pages')
      × ((a : ℕ) → pages' a ≡ (if leb k a && ltb a (i + n) then 0 else pages a))
unfolding clear_from
clear_from-Cleared i n zero k pages p b l u = absurd (omega arith)
clear_from-Cleared i n (suc r) k pages p b l u = elim (Bool-cases (k == i + n - 1)) [
  | inl last ↦ (update pages k 0, ground (arith, b k, mark_of-last i n k p), λ a. ground arith)
  | inr more ↦
      let (pages', run, cleared) =
        clear_from-Cleared i n r (k + 1) (update pages k 0) p (λ j x y. ground (arith, b j))
          (ground arith) (omega arith) in
      (pages', ground (arith, b k, mark_of-earlier i n k p), λ a. ground (arith, cleared a))
]
