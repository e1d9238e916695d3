-- ===== src/Memory/Bitmap/Tests.antt =====
-- The theorems on Kernel/memory_manager/mem_bitmap.c at a map of four pages.
use boke_os.Base.{ℕ, ◌+◌, ◌*◌, ◌≤◌, ◌≡◌, ◌≢◌, refl, ◌⊎◌, ◌==◌, if◌then◌else◌, arith}
use boke_os.Base.Run.{ok}
use boke_os.Memory.Bitmap.{
  Heap, size_to_num_of_pages, find_pages, find_from, mark_of, malloc, release, calculate_free_pages,
}
use boke_os.Memory.Bitmap.Search.{AllFree, NoRun}
use boke_os.Memory.Bitmap.Blocks.{Block}
use boke_os.Memory.Bitmap.Free.{IsValid}
use boke_os.Memory.Bitmap.Api.{pages_for, Granted, malloc-Granted}
use boke_os.Memory.Bitmap.Safety.{malloc-apart, release-malloc_inside, release-Freed}

-- The first page is a block.
abbrev busy : Heap
busy = record {
  start = 0x1020;
  size = 160;
  finish = 0x10A0;
  page_qty = 4;
  page_size = 32;
  last_freed_page = 0;
  pages = λ j. if j == 0 then 5 else 0;
}

busy-IsValid : IsValid busy
busy-IsValid = omega arith

first-Block : Block busy.pages 0 1
unfolding mark_of
first-Block = record { some_pages = omega arith; bytes = λ j l u. ground arith }

malloc-busy : (malloc 40 busy).0 ≡ 0x1040
unfolding malloc size_to_num_of_pages find_pages find_from
malloc-busy = refl

not_null : (malloc 40 busy).0 ≢ 0
not_null = omega (arith, malloc-busy)

malloc-Granted_example :
    Granted busy 40 (pages_for 40) (malloc 40 busy).0 (malloc 40 busy).1
    ⊎ ((malloc 40 busy ≡ (0, busy)) × NoRun busy.pages 4 (pages_for 40))
malloc-Granted_example = malloc-Granted 40 busy busy-IsValid (omega arith)

malloc-apart_example :
    (i : ℕ) × ((malloc 40 busy).0 ≡ 0x1020 + i * 32)
    × Block (malloc 40 busy).1.pages i (pages_for 40)
    × Block (malloc 40 busy).1.pages 0 1
    × ((i + pages_for 40 ≤ 0) ⊎ (0 + 1 ≤ i))
malloc-apart_example = malloc-apart 40 busy 0 1 busy-IsValid (omega arith) not_null first-Block

release-malloc_inside_example : release ((malloc 40 busy).0 + 35) (malloc 40 busy).1 ≡ ok busy
release-malloc_inside_example = release-malloc_inside 40 35 busy busy-IsValid (omega arith) not_null

release-Freed_example :
    (h' : Heap) × (release 0x1023 busy ≡ ok h')
    × IsValid h'
    × AllFree h'.pages 0 1
    × ((k m : ℕ) → Block busy.pages k m → k ≢ 0 → Block h'.pages k m)
    × (calculate_free_pages busy + 1 ≡ calculate_free_pages h')
release-Freed_example =
    release-Freed busy 0x1023 0 1 busy-IsValid first-Block (omega arith) (omega arith)
