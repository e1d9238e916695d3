-- ===== src/Modules/Tests.antt =====
-- An image of Toolchain/ModulePacker/main.c with a kernel of one byte and two modules.
use boke_os.Base.{ℕ, ◌+◌, ◌-◌, ◌≡◌, refl, ◌∙◌, some, List, [], ◌∷◌, length, get_or, arith}
use boke_os.Strings.{Memory}
use boke_os.Modules.{uint_32_bytes, build_image, load_modules}
use boke_os.Modules.Image.{packed, build_image-packed}
use boke_os.Modules.Bytes.{Stored}
use boke_os.Modules.Loading.{Outside, Fits, Loaded, load_modules-build_image}

abbrev two_modules : List (List ℕ)
two_modules = (1 ∷ 2 ∷ []) ∷ (3 ∷ []) ∷ []

abbrev two_image : List ℕ
two_image = 7 ∷ 2 ∷ 0 ∷ 0 ∷ 0 ∷ 2 ∷ 0 ∷ 0 ∷ 0 ∷ 1 ∷ 2 ∷ 1 ∷ 0 ∷ 0 ∷ 0 ∷ 3 ∷ []

abbrev image_memory : Memory
image_memory = λ a. get_or two_image (a - 1000) 0

two_written : build_image (7 ∷ []) two_modules ≡ some two_image
unfolding uint_32_bytes
two_written = build_image-packed (7 ∷ []) two_modules ∙ refl

two-Stored : Stored image_memory 1000 two_image
two-Stored = ground arith

two_Fits :
    Fits
      (1000 + length {A = ℕ} (7 ∷ []))
      (4 + length (packed two_modules))
      (2000 ∷ 3000 ∷ [])
      two_modules
unfolding uint_32_bytes
two_Fits =
    (omega arith, omega arith, λ i h. (omega arith, tt), (omega arith, omega arith, λ i h. tt, tt))

load_modules-build_image_example :
    (m' : Memory) × (load_modules image_memory (1000 + length {A = ℕ} (7 ∷ [])) (2000 ∷ 3000 ∷ [])
      ≡ some m')
    × Loaded m' (2000 ∷ 3000 ∷ []) two_modules
    × ((b : ℕ) → Outside b (2000 ∷ 3000 ∷ []) two_modules → m' b ≡ image_memory b)
load_modules-build_image_example =
    load_modules-build_image (7 ∷ []) two_image two_modules image_memory 1000 (2000 ∷ 3000 ∷ [])
      two_written two-Stored (omega arith) two_Fits
