-- ===== src/Memory/Bitmap/Safety.antt =====
-- How the calls of Kernel/memory_manager/mem_bitmap.c go together: blocks that stay apart, a block
-- that is given back, and a heap that is set up.
use boke_os.Base.{
  ℕ, zero, suc, ◌+◌, ◌*◌, ◌≤◌, ◌<◌, ◌≡◌, ◌≢◌, ◌⊎◌, inl, inr, Bool-cases, if◌then◌else◌, update, ltb,
  arith, sym, ap, ◌∙◌,
}
use mathlib.Core.Path.{fun_ext}
use boke_os.Base.Run.{ok}
use boke_os.Memory.Bitmap.{
  Heap, ceil_div, max_mem, init_mm, initialize_pages, malloc, release, calculate_free_pages,
}
use boke_os.Memory.Bitmap.Search.{AllFree}
use boke_os.Memory.Bitmap.Blocks.{within, Block, mark_of-pos}
use boke_os.Memory.Bitmap.Count.{free_pages-taken}
use boke_os.Memory.Bitmap.Free.{IsValid, PointsInto, release-Cleared, Block-disjoint}
use boke_os.Memory.Bitmap.Api.{pages_for, Granted, malloc-Granted, apart}

Block-kept :
    (pages pages' : ℕ → ℕ) (i n k m : ℕ)
    → Block pages k m
    → (i + n ≤ k) ⊎ (k + m ≤ i)
    → ((a : ℕ) → (a < i) ⊎ (i + n ≤ a) → pages' a ≡ pages a)
    → Block pages' k m
Block-kept pages pages' i n k m b out same = record {
  some_pages = b.some_pages;
  bytes = λ j l u. same j (ground arith) ∙ b.bytes j l u;
}

granted :
    (size : ℕ) (h : Heap)
    → IsValid h
    → 0 < size
    → (malloc size h).0 ≢ 0
    → Granted h size (pages_for size) (malloc size h).0 (malloc size h).1
granted size h v p given = elim (malloc-Granted size h v p) [
  | inl g ↦ g
  | inr (null, _) ↦ absurd (given (ap (λ r. r.0) null))
]

-- A block that `malloc` hands out has no page in common with any block that was in use, and those
-- blocks stay.
pub malloc-apart :
    (size : ℕ) (h : Heap) (k m : ℕ)
    → IsValid h
    → 0 < size
    → (malloc size h).0 ≢ 0
    → Block h.pages k m
    → (i : ℕ) × ((malloc size h).0 ≡ h.start + i * 32)
      × Block (malloc size h).1.pages i (pages_for size)
      × Block (malloc size h).1.pages k m
      × ((i + pages_for size ≤ k) ⊎ (k + m ≤ i))
malloc-apart size h k m v p given b =
    let g = granted size h v p given in
    let out = apart h.pages g.i (pages_for size) k m g.block.some_pages g.first_fit.run b in
    (
      g.i,
      g.pointer,
      g.block,
      Block-kept h.pages (malloc size h).1.pages g.i (pages_for size) k m b out g.others,
      out,
    )

freed_again :
    (h : Heap) (h' : Heap) (pages' : ℕ → ℕ)
    → h' ≡ record h { pages = h'.pages }
    → ((a : ℕ) → pages' a ≡ h.pages a)
    → record h' { pages = pages' } ≡ h
freed_again h h' pages' e same =
    ap (λ (x : Heap). record x { pages = pages' }) e
    ∙ ap (λ q. record h { pages = q }) (fun_ext same)

-- `free` of a pointer into a block that `malloc` has just handed out, its start or any other byte of
-- the request, brings the heap back.
pub release-malloc_inside :
    (size d : ℕ) (h : Heap)
    → IsValid h
    → d < size
    → (malloc size h).0 ≢ 0
    → release ((malloc size h).0 + d) (malloc size h).1 ≡ ok h
release-malloc_inside size d h v l given = back
  where
    h' : Heap
    h' = (malloc size h).1

    g : Granted h size (pages_for size) (malloc size h).0 h'
    g = granted size h v (omega arith) given

    start : h'.start ≡ h.start
    start = ap (λ (x : Heap). x.start) g.only_pages

    qty : h'.page_qty ≡ h.page_qty
    qty = ap (λ (x : Heap). x.page_qty) g.only_pages

    at : PointsInto h' ((malloc size h).0 + d) g.i (pages_for size)
    at = omega (arith, start, g.pointer, g.fits)

    back : release ((malloc size h).0 + d) h' ≡ ok h
    back =
        let (pages', run, cleared) =
          release-Cleared h' ((malloc size h).0 + d) g.i (pages_for size) g.valid g.block
            (omega (arith, qty, g.first_fit.inside)) at in
        run
        ∙ ap ok (
            freed_again h h' pages' g.only_pages (λ a.
              elim (Bool-cases (within g.i (pages_for size) a)) [
                | inl inside ↦
                    cleared a ∙ ground (arith, g.first_fit.run a (ground arith) (ground arith))
                | inr outside ↦ cleared a ∙ ground (arith, g.others a (ground arith))
              ]))

-- `free` of a pointer into a block keeps the heap valid, frees the pages of that block, leaves every
-- block that starts elsewhere, and the count of free pages grows by the length of the block.
pub release-Freed :
    (h : Heap) (p i n : ℕ)
    → IsValid h
    → Block h.pages i n
    → i + n ≤ h.page_qty
    → PointsInto h p i n
    → (h' : Heap) × (release p h ≡ ok h')
      × IsValid h'
      × AllFree h'.pages i n
      × ((k m : ℕ) → Block h.pages k m → k ≢ i → Block h'.pages k m)
      × (calculate_free_pages h + n ≡ calculate_free_pages h')
unfolding calculate_free_pages
release-Freed h p i n v b q at =
    let (pages', run, cleared) = release-Cleared h p i n v b q at in
    let same : (a : ℕ) → (a < i) ⊎ (i + n ≤ a) → pages' a ≡ h.pages a =
      λ a out. ground (arith, cleared a) in
    let empty : AllFree pages' i n = λ j l u. ground (arith, cleared j) in
    (
      record h { pages = pages' },
      run,
      record {
        paged = v.paged;
        from_zero = v.from_zero;
        covered = v.covered;
        not_null = v.not_null;
      },
      empty,
      (λ k m c other. Block-kept h.pages pages' i n k m c (blocks_apart k m c other) same),
      free_pages-taken pages' h.pages i n empty
          (λ j l u. ground (arith, b.bytes j l u, mark_of-pos i n j)) (λ a out. sym (same a out))
          h.page_qty q,
    )
  where
    blocks_apart : (k m : ℕ) → Block h.pages k m → k ≢ i → (i + n ≤ k) ⊎ (k + m ≤ i)
    blocks_apart k m c other = elim (Bool-cases (ltb i k)) [
      | inl after ↦ inl (Block-disjoint h.pages i n k m b c (ground arith))
      | inr before ↦ inr (Block-disjoint h.pages k m i n c b (ground arith))
    ]

initialize_pages_lem :
    (r i : ℕ) (pages : ℕ → ℕ) (a : ℕ)
    → initialize_pages r i pages a ≡ (if within i r a then 0 else pages a)
unfolding initialize_pages
initialize_pages_lem zero i pages a = ground arith
initialize_pages_lem (suc r) i pages a =
    ground (arith, initialize_pages_lem r (i + 1) (update pages i 0) a)

-- The bytes that `init_mm` asks for: the pages, and pages for the map.
abbrev pub needed_bytes : (mem_ammount : ℕ) → ℕ
needed_bytes mem = ceil_div mem 32 * 32 + ceil_div (ceil_div mem 32) 32 * 32

-- `init_mm` at an address that is not NULL changes nothing if more bytes than `max_mem` are needed.
-- Otherwise it gives a valid heap of free pages that holds the amount asked for, and the map, one byte
-- to a page, ends before the first page.
init_mm-AllFree :
    (base mem : ℕ) (h : Heap)
    → 0 < base
    → ((init_mm base mem h ≡ h) × (max_mem < needed_bytes mem))
      ⊎ (IsValid (init_mm base mem h)
          × AllFree (init_mm base mem h).pages 0 (init_mm base mem h).page_qty
          × (mem ≤ (init_mm base mem h).page_qty * 32)
          × (base + (init_mm base mem h).page_qty ≤ (init_mm base mem h).start))
unfolding init_mm
init_mm-AllFree base mem h p = elim (Bool-cases (ltb max_mem (needed_bytes mem))) [
  | inl more ↦ inl (ground arith, ground arith)
  | inr enough ↦ inr (
    ground arith,
    (λ j l u. ground (arith, initialize_pages_lem (ceil_div mem 32) 0 h.pages j)),
    ground arith,
    ground arith,
  )
]
