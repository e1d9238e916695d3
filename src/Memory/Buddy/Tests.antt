-- ===== src/Memory/Buddy/Tests.antt =====
-- Runs of mem_buddy.c on 64 bytes from address 64, and its theorems there.
use boke_os.Base.{ℕ, ◌+◌, ◌-◌, ◌*◌, ◌%◌, ◌≤◌, ◌<◌, ◌≡◌, refl, none, some, ◌∷◌, ◌++◌, arith}
use boke_os.Memory.Buddy.{
  Manager, leaf, branch, free, allocated, parcial, malloc, release, rounded, u64, Storage,
}
use boke_os.Memory.Buddy.Shape.{Blocks, blocks, Apart, without}
use boke_os.Memory.Buddy.Malloc.{IsClean}
use boke_os.Memory.Buddy.Api.{
  IsValid, Answer, malloc-Answer, malloc-IsValid, malloc-blocks, release-malloc, blocks-release,
}

-- A storage of zeros.
abbrev clean : Storage
clean i = none

clean-IsClean : IsClean clean
clean-IsClean i = refl

abbrev start : Manager
start = record {
  root = leaf (record { start = 64; size = 64; state = free; index = 0 });
  mem_allocated = 0;
}

-- After `malloc(10)`, which rounds to 16.
abbrev after : Manager
after = record {
  root =
      branch (record { start = 64; size = 64; state = parcial; index = 0 })
        (branch (record { start = 64; size = 32; state = parcial; index = 1 })
          (leaf (record { start = 64; size = 16; state = allocated; index = 3 }))
          (leaf (record { start = 80; size = 16; state = free; index = 4 })))
        (leaf (record { start = 96; size = 32; state = free; index = 2 }));
  mem_allocated = 16;
}

rounded_ten : rounded 10 ≡ some 16
unfolding rounded
rounded_ten = refl

malloc_ten : malloc clean 10 start ≡ some (64, after)
unfolding malloc
malloc_ten = refl

start-IsValid : IsValid 64 64 start
start-IsValid = record {
  tree = (refl, refl, refl, omega arith, λ q. cc);
  start = omega arith;
  small = omega arith;
}

after-IsValid : IsValid 64 64 after
after-IsValid = malloc-IsValid clean 64 64 10 64 start after clean-IsClean start-IsValid malloc_ten

malloc-Answer_example :
    (p : ℕ) × (m' : Manager) × (malloc clean 10 start ≡ some (p, m')) × Answer 64 64 10 start p m'
malloc-Answer_example = malloc-Answer clean 64 64 10 start clean-IsClean start-IsValid

malloc-blocks_example :
    (size : ℕ) × (before after' : Blocks) × (10 ≤ size)
    × (blocks start.root ≡ before ++ after')
    × (blocks after.root ≡ before ++ (64, size) ∷ after')
    × Apart 64 (64 + 64) (before ++ (64, size) ∷ after')
malloc-blocks_example =
    malloc-blocks clean 64 64 10 64 start after clean-IsClean start-IsValid malloc_ten (omega arith)

release-malloc_example :
    ((release 64 after).root ≡ start.root)
    × ((size : ℕ) × (16 ≤ size)
        × (size < 16 * 2)
        × ((release 64 after).mem_allocated ≡ ((0 + 16) % u64 + u64 - size) % u64))
release-malloc_example =
    release-malloc clean 64 64 10 64 start after 16 clean-IsClean start-IsValid malloc_ten
      (omega arith) rounded_ten

blocks-release_example :
    IsValid 64 64 (release 64 after)
    × (blocks (release 64 after).root ≡ without 64 (blocks after.root))
blocks-release_example = blocks-release 64 64 64 after after-IsValid
