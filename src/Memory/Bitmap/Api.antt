-- ===== src/Memory/Bitmap/Api.antt =====
-- What `init_mm`, `malloc` and `free` of Kernel/memory_manager/mem_bitmap.c promise.
use boke_os.Base.{ℕ, ◌+◌, ◌*◌, ◌≤◌, ◌<◌, ◌≡◌, refl, ◌⊎◌, inl, inr, Bool-cases, ◌||◌, leb, arith}
use boke_os.Memory.Bitmap.{Heap, ceil_div, size_to_num_of_pages, mark, malloc, calculate_free_pages}
use boke_os.Memory.Bitmap.Search.{AllFree, FirstRun, NoRun, find_pages-Answer}
use boke_os.Memory.Bitmap.Blocks.{Block, mark-Block, mark_of-pos}
use boke_os.Memory.Bitmap.Count.{free_pages-taken}
use boke_os.Memory.Bitmap.Free.{IsValid}

-- The pages that a request needs.
abbrev pub pages_for : (size : ℕ) → ℕ
pages_for size = ceil_div size 32

-- What `malloc` gives for a request of `n` pages: the first run of free pages that is long enough, or
-- NULL if there is none.
abbrev pub Given : Heap → (n : ℕ) → ℕ × Heap → Type 0
Given h n r =
    ((i : ℕ) × (r.0 ≡ h.start + i * 32)
      × (r.1 ≡ record h { pages = mark i n n i h.pages })
      × FirstRun h.pages h.page_qty n i)
    ⊎ ((r ≡ (0, h)) × NoRun h.pages h.page_qty n)

size_to_num_of_pages-for :
    (size : ℕ) (h : Heap) → IsValid h → size_to_num_of_pages size h ≡ pages_for size
unfolding size_to_num_of_pages
size_to_num_of_pages-for size h v = ground arith

malloc-Given :
    (size : ℕ) (h : Heap) → IsValid h → 0 < size → Given h (pages_for size) (malloc size h)
unfolding malloc
malloc-Given size h v p = elim (find_pages-Answer (pages_for size) h (ground arith)) [
  | inl (i, found, run) ↦ inl (
    i,
    ground (arith, size_to_num_of_pages-for size h v),
    ground (arith, size_to_num_of_pages-for size h v),
    run,
  )
  | inr (none_, no_run) ↦ inr (ground (arith, size_to_num_of_pages-for size h v), no_run)
]

-- The block of `n` pages that a call handed out at page `i`.
pub record Granted (h : Heap) (size n : ℕ) (p : ℕ) (h' : Heap) : Type 0 where
  pub i : ℕ
  pub pointer : p ≡ h.start + i * 32
  pub only_pages : h' ≡ record h { pages = h'.pages }
  pub first_fit : FirstRun h.pages h.page_qty n i
  pub fits : (size ≤ n * 32) × (n * 32 < size + 32)
  pub block : Block h'.pages i n
  pub others : (a : ℕ) → (a < i) ⊎ (i + n ≤ a) → h'.pages a ≡ h.pages a
  pub valid : IsValid h'
  pub fewer : calculate_free_pages h' + n ≡ calculate_free_pages h

pages_for_pos : (size : ℕ) → 0 < size → 0 < pages_for size
pages_for_pos size p = ground arith

pages_for_fits :
    (size : ℕ) → 0 < size → (size ≤ pages_for size * 32) × (pages_for size * 32 < size + 32)
pages_for_fits size p = ground arith

count-mark :
    (h : Heap) (i n : ℕ)
    → AllFree h.pages i n
    → 0 < n
    → i + n ≤ h.page_qty
    → calculate_free_pages (record h { pages = mark i n n i h.pages }) + n ≡ calculate_free_pages h
unfolding calculate_free_pages
count-mark h i n run p q =
    let (b, same) = mark-Block h.pages i n p in
    free_pages-taken h.pages (mark i n n i h.pages) i n run
      (λ j l u. ground (arith, b.bytes j l u, mark_of-pos i n j)) same h.page_qty q

-- `malloc` of a request that is not empty, on a heap that `init_mm` has set up: either it gives NULL,
-- changes nothing, and there is no run of free pages that is long enough; or it takes the first such
-- run, marks it as a block that is less than a page longer than the request, changes no other page,
-- and the count of free pages falls by the length of the block.
pub malloc-Granted :
    (size : ℕ) (h : Heap)
    → IsValid h
    → 0 < size
    → Granted h size (pages_for size) (malloc size h).0 (malloc size h).1
      ⊎ ((malloc size h ≡ (0, h)) × NoRun h.pages h.page_qty (pages_for size))
malloc-Granted size h v p = elim (malloc-Given size h v p) [
  | inr q ↦ inr q
  | inl (i, at, heap, run) ↦ rw heap (
      inl (record {
        i = i;
        pointer = at;
        only_pages = refl;
        first_fit = run;
        fits = pages_for_fits size p;
        block = (mark-Block h.pages i (pages_for size) (pages_for_pos size p)).0;
        others = (mark-Block h.pages i (pages_for size) (pages_for_pos size p)).1;
        valid = record {
          paged = v.paged;
          from_zero = v.from_zero;
          covered = v.covered;
          not_null = v.not_null;
        };
        fewer = count-mark h i (pages_for size) run.run (pages_for_pos size p) run.inside;
      }))
]

-- A run of free pages and a block have no page in common.
pub apart :
    (pages : ℕ → ℕ) (i n k m : ℕ)
    → 0 < n
    → AllFree pages i n
    → Block pages k m
    → (i + n ≤ k) ⊎ (k + m ≤ i)
apart pages i n k m p run b = elim (Bool-cases (leb (i + n) k || leb (k + m) i)) [
  | inl q ↦ ground arith
  | inr q ↦ elim (Bool-cases (leb i k)) [
    | inl low ↦ absurd (
        ground (
          arith,
          run k (ground arith) (ground arith),
          b.bytes k (omega arith) (ground (arith, b.some_pages)),
          mark_of-pos k m k,
        ))
    | inr high ↦ absurd (
        ground (
          arith,
          run i (omega arith) (ground arith),
          b.bytes i (ground arith) (ground arith),
          mark_of-pos k m i,
        ))
  ]
]
