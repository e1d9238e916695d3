-- ===== src/Memory/Bitmap/Free.antt =====
-- What `free` of Kernel/memory_manager/mem_bitmap.c does to a block, and to the others.
use boke_os.Base.{
  ℕ, ◌+◌, ◌-◌, ◌*◌, ◌/◌, ◌≤◌, ◌<◌, ◌≡◌, inl, inr, Bool-cases, ◌==◌, if◌then◌else◌, update, leb,
  arith, some,
}
use boke_os.Base.Run.{ok}
use boke_os.Memory.Bitmap.{Heap, get_page_index, first_page_index, release_page, release}
use boke_os.Memory.Bitmap.Blocks.{
  within, Block, mark_of-pos, mark_of-single, mark_of-first, mark_of-later, mark_of-several,
  mark_of-inner, mark_of-bound, walk_back-first, clear_from-Cleared,
}

-- A heap that `init_mm` has set up: the map covers the bytes from `start` to `finish`.
pub record IsValid (h : Heap) : Type 0 where
  pub paged : h.page_size ≡ 32
  pub from_zero : h.last_freed_page ≡ 0
  pub covered : h.finish ≡ h.start + h.page_qty * 32
  pub not_null : 0 < h.start

-- `p` points into the block of `n` pages from `i` on.
abbrev pub PointsInto : Heap → (p i n : ℕ) → Type 0
PointsInto h p i n = (h.start + i * 32 ≤ p) × (p < h.start + (i + n) * 32)

get_page_index-in :
    (h : Heap) (p i n : ℕ)
    → IsValid h
    → i + n ≤ h.page_qty
    → PointsInto h p i n
    → (j : ℕ) × (get_page_index p h ≡ some j) × (i ≤ j) × (j < i + n)
unfolding get_page_index
get_page_index-in h p i n v q at = ((p - h.start) / 32, ground arith, omega arith, omega arith)

first_page_index-first :
    (pages : ℕ → ℕ) (i n j : ℕ)
    → 1 < n
    → Block pages i n
    → i ≤ j
    → j < i + n
    → first_page_index pages j ≡ ok (some i)
unfolding first_page_index
first_page_index-first pages i n j p b l u = elim (Bool-cases (j == i)) [
  | inl at ↦ ground (arith, b.bytes j l u, mark_of-first i n p)
  | inr past ↦
      ground (arith, b.bytes j l u, mark_of-later i n j p, walk_back-first pages i n j p b l u)
]

release_page-Cleared :
    (h : Heap) (j i n : ℕ)
    → Block h.pages i n
    → i + n ≤ h.page_qty
    → i ≤ j
    → j < i + n
    → (pages' : ℕ → ℕ) × (release_page j h ≡ ok (record h { pages = pages' }))
      × ((a : ℕ) → pages' a ≡ (if within i n a then 0 else h.pages a))
unfolding release_page
release_page-Cleared h j i n b q l u = elim (Bool-cases (n == 1)) [
  | inl one ↦
      (update h.pages j 0, ground (arith, b.bytes j l u, mark_of-single i j), λ a. ground arith)
  | inr more ↦
      let several : 1 < n = ground (arith, b.some_pages) in
      let (pages', run, cleared) =
        clear_from-Cleared i n (h.page_qty - i) i h.pages several b.bytes (omega arith)
          (omega arith) in
      (
        pages',
        ground (
          arith,
          b.bytes j l u,
          mark_of-pos i n j,
          mark_of-several i n j several,
          first_page_index-first h.pages i n j several b l u,
        ),
        cleared,
      )
]

-- `free` of a pointer into a block, its start or not, frees all its pages and no other.
pub release-Cleared :
    (h : Heap) (p i n : ℕ)
    → IsValid h
    → Block h.pages i n
    → i + n ≤ h.page_qty
    → PointsInto h p i n
    → (pages' : ℕ → ℕ) × (release p h ≡ ok (record h { pages = pages' }))
      × ((a : ℕ) → pages' a ≡ (if within i n a then 0 else h.pages a))
unfolding release
release-Cleared h p i n v b q at =
    let (j, found, l, u) = get_page_index-in h p i n v q at in
    rw (found, release) (release_page-Cleared h j i n b q l u)

-- Blocks that start at different pages have no page in common.
pub Block-disjoint :
    (pages : ℕ → ℕ) (i n k m : ℕ) → Block pages i n → Block pages k m → i < k → i + n ≤ k
Block-disjoint pages i n k m b c l = elim (Bool-cases (leb (i + n) k)) [
  | inl apart ↦ ground arith
  | inr over ↦ absurd (
      ground (
        arith,
        b.bytes k (omega arith) (ground arith),
        c.bytes k (omega arith) (ground arith),
        mark_of-inner i n k l (ground arith),
        mark_of-bound k m,
      ))
]
