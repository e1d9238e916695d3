-- ===== src/Modules/Loading.antt =====
-- What Kernel/moduleLoader.c loads of what Toolchain/ModulePacker/main.c wrote.
use boke_os.Base.{
  ℕ, ◌+◌, ◌≤◌, ◌<◌, ◌^◌, ◌≡◌, refl, sym, ◌∙◌, ap, ◌⊎◌, some, List, [], ◌∷◌, ◌++◌, length, arith,
  length-append,
}
use mathlib.Core.List.{append_assoc}
use mathlib.Core.Path.{subst}
use mathlib.Core.Option.{some-injective}
use boke_os.Strings.{Memory}
use boke_os.Modules.{uint_32_bytes, load_module, load_from, load_modules, build_image}
use boke_os.Modules.Image.{packed, build_image-packed}
use boke_os.Modules.Bytes.{
  Stored, Stored-moved, Stored-append, read_uint_32-bytes, Apart, load_module-Stored,
}

-- The address lies outside every target.
abbrev pub Outside : (b : ℕ) → List ℕ → List (List ℕ) → Type 0
Outside b [] xs = Unit
Outside b (t ∷ ts) [] = Unit
Outside b (t ∷ ts) (x ∷ xs) = ((b < t) ⊎ (t + length x ≤ b)) × Outside b ts xs

-- A target for each module, none of which overlaps the `len` bytes from `p` on or a later one.
abbrev pub Fits : (p len : ℕ) → List ℕ → List (List ℕ) → Type 0
Fits p len [] [] = Unit
Fits p len [] (x ∷ xs) = ⊥
Fits p len (t ∷ ts) [] = Unit
Fits p len (t ∷ ts) (x ∷ xs) =
    (length x < 2 ^ 32)
    × Apart t (length x) p len
    × ((i : ℕ) → i < length x → Outside (t + i) ts xs)
    × Fits p len ts xs

-- Every module is at its target.
abbrev pub Loaded : Memory → List ℕ → List (List ℕ) → Type 0
Loaded m [] xs = Unit
Loaded m (t ∷ ts) [] = Unit
Loaded m (t ∷ ts) (x ∷ xs) = Stored m t x × Loaded m ts xs

packed-length :
    (x : List ℕ) (xs : List (List ℕ)) → length (packed (x ∷ xs)) ≡ 4 + length x + length (packed xs)
unfolding uint_32_bytes
packed-length x xs = omega (arith, length-append x (packed xs))

load_from-Loaded :
    (m : Memory) (a p len : ℕ) (ts : List ℕ) (xs : List (List ℕ))
    → Stored m a (packed xs)
    → p ≤ a
    → a + length (packed xs) ≤ p + len
    → Fits p len ts xs
    → (m' : Memory) × (load_from (length xs) m a ts ≡ some m')
      × Loaded m' ts xs
      × ((b : ℕ) → Outside b ts xs → m' b ≡ m b)
unfolding load_from uint_32_bytes
load_from-Loaded m a p len [] [] k l u fits = (m, refl, tt, λ b o. refl)
load_from-Loaded m a p len (t ∷ ts) [] k l u fits = (m, refl, tt, λ b o. refl)
load_from-Loaded m a p len [] (x ∷ xs) k l u fits = absurd fits
load_from-Loaded m a p len (t ∷ ts) (x ∷ xs) k l u fits =
    let size : ℕ = length x in
    let bytes : List ℕ = uint_32_bytes size ++ x in
    let both =
      Stored-append m a bytes (packed xs)
        (subst (Stored m a) (sym (append_assoc (uint_32_bytes size) x (packed xs))) k) in
    let long = packed-length x xs in
    let (next, code, rest) =
      load_module-Stored m a t x fits.0 both.0 (omega (arith, long, fits.1)) in
    let m1 : Memory = (load_module m a t).0 in
    let behind : Stored m1 (a + (4 + size)) (packed xs) =
      Stored-moved m m1 (a + (4 + size)) (a + (4 + size)) (packed xs)
        (λ i i_lt. rest (a + (4 + size) + i) (omega (arith, long, fits.1)))
        (subst (λ n. Stored m (a + n) (packed xs)) (omega arith) both.1) in
    let (m', run, loaded, same) =
      load_from-Loaded m1 (a + (4 + size)) p len ts xs behind (omega arith) (omega (arith, long))
        fits.3 in
    (
      m',
      subst (λ n. load_from (length xs) m1 n ts ≡ some m') (sym next) run,
      (Stored-moved m1 m' t t x (λ i i_lt. same (t + i) (fits.2 i i_lt)) code, loaded),
      λ b out. same b out.1 ∙ rest b out.0,
    )

-- With the image that `buildImage` writes in memory, `load_modules` from behind the kernel puts every module
-- at its target and changes nothing else, if no target overlaps the modules in the image or another
-- target, and there are less than 2 ^ 32 modules of less than 2 ^ 32 bytes each.
pub load_modules-build_image :
    (kernel image : List ℕ) (xs : List (List ℕ)) (m : Memory) (base : ℕ) (ts : List ℕ)
    → build_image kernel xs ≡ some image
    → Stored m base image
    → length xs < 2 ^ 32
    → Fits (base + length kernel) (4 + length (packed xs)) ts xs
    → (m' : Memory) × (load_modules m (base + length kernel) ts ≡ some m')
      × Loaded m' ts xs
      × ((b : ℕ) → Outside b ts xs → m' b ≡ m b)
unfolding load_modules uint_32_bytes
load_modules-build_image kernel image xs m base ts written stored few fits =
    let p : ℕ = base + length kernel in
    let payload : List ℕ = uint_32_bytes (length xs) ++ packed xs in
    let same : image ≡ kernel ++ payload = some-injective image (kernel ++ payload) (
      sym written
      ∙ build_image-packed kernel xs
      ∙ ap some (append_assoc kernel (uint_32_bytes (length xs)) (packed xs))) in
    let behind = (Stored-append m base kernel payload (subst (Stored m base) same stored)).1 in
    let (count, modules) = Stored-append m p (uint_32_bytes (length xs)) (packed xs) behind in
    let read = read_uint_32-bytes m p (length xs) few count in
    rw (read, load_modules)
      (load_from-Loaded m (p + 4) p (4 + length (packed xs)) ts xs modules (omega arith)
        (omega arith) fits)
