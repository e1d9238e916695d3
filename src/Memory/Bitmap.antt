-- ===== src/Memory/Bitmap.antt =====
-- Kernel/memory_manager/mem_bitmap.c: a map with one byte for each page of 32 bytes.
-- The map is a function from page numbers to bytes. A loop that would read the map at `page_qty` or
-- beyond, or below 0, ends in `fault`: what lies there is not the map. INVALID_ADDRESS is `none`.
-- Addresses and sizes are numbers; `init_mm` keeps the heap below `max_mem` bytes, so that no sum
-- wraps at 2 ^ 64.
pub mod Search
pub mod Blocks
pub mod Free
pub mod Count
pub mod Api
pub mod Safety
mod Tests
use boke_os.Base.{
  ℕ, zero, suc, ◌+◌, ◌-◌, ◌*◌, ◌/◌, ◌%◌, Bool, ◌||◌, Option, none, some, ◌==◌, ltb, leb,
  if◌then◌else◌, update, true, false,
}
use boke_os.Base.Run.{Run, ok, fault, out_of_fuel, ◌>>=◌}

-- The values of the enum in memory_manager.h that stand in the map.
abbrev pub free_page : ℕ
free_page = 0

abbrev pub allocated : ℕ
allocated = 1

abbrev pub start_page_bound : ℕ
start_page_bound = 3

abbrev pub end_page_bound : ℕ
end_page_bound = 4

abbrev pub single_page : ℕ
single_page = 5

-- `PAGE_SIZE` and `MAX_MEM`
abbrev pub page_bytes : ℕ
page_bytes = 32

abbrev pub max_mem : ℕ
max_mem = 408944640

-- `heap`
pub record Heap : Type 0 where
  pub start : ℕ
  pub size : ℕ
  pub finish : ℕ
  pub page_qty : ℕ
  pub page_size : ℕ
  pub last_freed_page : ℕ
  pub pages : ℕ → ℕ

-- `n / d`, and one more if a rest is left.
abbrev pub ceil_div : ℕ → ℕ → ℕ
ceil_div n d = if n % d == 0 then n / d else n / d + 1

-- The loop of `initialize_pages`.
unfoldable pub initialize_pages : (rounds i : ℕ) → (ℕ → ℕ) → ℕ → ℕ
initialize_pages zero i pages = pages
initialize_pages (suc r) i pages = initialize_pages r (i + 1) (update pages i free_page)

-- `init_mm`. Where the memory is not enough, nothing changes.
unfoldable pub init_mm : (base mem_ammount : ℕ) → Heap → Heap
unfolding initialize_pages
init_mm base mem h =
    let bitmap_size = ceil_div mem page_bytes in
    let bitmap_pages = ceil_div bitmap_size page_bytes in
    let rounded_up = if mem % page_bytes == 0 then mem else bitmap_size * page_bytes in
    let total = rounded_up + bitmap_pages * page_bytes in
    if ltb max_mem total || ltb bitmap_size bitmap_pages then h else record {
      start = base + bitmap_pages * page_bytes;
      size = total;
      finish = base + total;
      page_qty = bitmap_size;
      page_size = page_bytes;
      last_freed_page = 0;
      pages = initialize_pages bitmap_size 0 h.pages;
    }

-- `size_to_num_of_pages`
unfoldable pub size_to_num_of_pages : (size : ℕ) → Heap → ℕ
size_to_num_of_pages size h = ceil_div size h.page_size

-- The loop of `find_pages` at page `i`, with the rounds that are left and `pages_found`. The source's
-- `i - pages_needed + 1` may pass through -1; the sum is taken first here.
unfoldable pub find_from : (ℕ → ℕ) → (needed rounds i found : ℕ) → Option ℕ
find_from pages needed zero i found = none
find_from pages needed (suc r) i found = elim (pages i == free_page) [
  | true ↦ elim (found + 1 == needed) [
    | true ↦ some (i + 1 - needed)
    | false ↦ find_from pages needed r (i + 1) (found + 1)
  ]
  | false ↦ find_from pages needed r (i + 1) 0
]

unfoldable pub find_pages : (needed start_page : ℕ) → Heap → Option ℕ
find_pages needed start_page h = find_from h.pages needed (h.page_qty - start_page) start_page 0

-- The byte that `malloc` writes for page `i` of `needed` pages from `first` on.
unfoldable pub mark_of : (first needed i : ℕ) → ℕ
mark_of first needed i =
    if i == first
    then (if needed == 1 then single_page else start_page_bound)
    else if i == first + needed - 1
    then end_page_bound
    else allocated

-- The marking loop of `malloc`, with the rounds that are left.
unfoldable pub mark : (first needed rounds i : ℕ) → (ℕ → ℕ) → ℕ → ℕ
unfolding mark_of
mark first needed zero i pages = pages
mark first needed (suc r) i pages =
    mark first needed r (i + 1) (update pages i (mark_of first needed i))

-- `malloc`: the pointer (0 is NULL) and the heap after the call.
unfoldable pub malloc : (size : ℕ) → Heap → ℕ × Heap
malloc size h =
    let needed = size_to_num_of_pages size h in
    let index : Option ℕ = elim (find_pages needed h.last_freed_page h) [
      | some i ↦ some i
      | none ↦ find_pages needed 0 h
    ] in
    elim index [
      | none ↦ (0, h)
      | some i ↦ (h.start + i * h.page_size, record h { pages = mark i needed needed i h.pages })
    ]

-- `get_page_index`
unfoldable pub get_page_index : (mem : ℕ) → Heap → Option ℕ
get_page_index mem h =
    if ltb h.finish mem || ltb mem h.start then none else some ((mem - h.start) / h.page_size)

-- `while (pages[i] != START_PAGE_BOUND) i--;`
unfoldable pub walk_back : (ℕ → ℕ) → (i : ℕ) → Run ℕ
walk_back pages zero = if pages 0 == start_page_bound then ok 0 else fault
walk_back pages (suc i) =
    let rest = walk_back pages i in if pages (suc i) == start_page_bound then ok (suc i) else rest

-- `get_first_page_index` of a page of the map; `ok none` is INVALID_ADDRESS.
unfoldable pub first_page_index : (ℕ → ℕ) → (page : ℕ) → Run (Option ℕ)
first_page_index pages i =
    let b = pages i in
    if (b == single_page) || (b == start_page_bound)
    then ok (some i)
    else if (b == end_page_bound) || (b == allocated)
    then (walk_back pages i >>= λ j. ok (some j))
    else ok none

-- The loop of `free` from page `i` on, with the pages that are left in the map, and the write behind
-- it.
unfoldable pub clear_from : (rounds i : ℕ) → (ℕ → ℕ) → Run (ℕ → ℕ)
clear_from zero i pages = fault
clear_from (suc r) i pages =
    let rest = clear_from r (i + 1) (update pages i free_page) in
    if pages i == end_page_bound then ok (update pages i free_page) else rest

-- `free` of the page with an index.
unfoldable pub release_page : (page : ℕ) → Heap → Run Heap
release_page i h =
    if leb h.page_qty i
    then fault
    else if h.pages i == free_page
    then ok h
    else if h.pages i == single_page
    then ok (record h { pages = update h.pages i free_page })
    else (first_page_index h.pages i >>= λ first. elim first [
      | none ↦ fault
      | some j ↦
          clear_from (h.page_qty - j) j h.pages >>= λ pages'. ok (record h { pages = pages' })
    ])

-- `free`.
unfoldable pub release : (mem : ℕ) → Heap → Run Heap
release mem h = elim (get_page_index mem h) [ none ↦ ok h | some i ↦ release_page i h ]

-- The loop of `calculate_free_pages` over the first `n` pages, from the last one down.
unfoldable pub free_pages : (ℕ → ℕ) → (n : ℕ) → ℕ
free_pages pages zero = 0
free_pages pages (suc n) = (if pages n == free_page then 1 else 0) + free_pages pages n

unfoldable pub calculate_free_pages : Heap → ℕ
unfolding free_pages
calculate_free_pages h = free_pages h.pages h.page_qty
