-- ===== src/Modules/Image.antt =====
-- What Toolchain/ModulePacker/main.c writes.
use boke_os.Base.{
  ℕ, zero, suc, ◌-◌, ◌<◌, ◌≡◌, refl, ◌∙◌, ap, inl, inr, Bool-cases, some, List, [], ◌∷◌, ◌++◌, ltb,
  length, take, drop, arith,
}
use boke_os.Modules.{uint_32_bytes, write_file_from, write_file, build_modules, build_image}

take-drop : (n : ℕ) (cs : List ℕ) → take n cs ++ drop n cs ≡ cs
take-drop zero cs = refl
take-drop (suc n) [] = refl
take-drop (suc n) (c ∷ cs) = ap (λ xs. c ∷ xs) (take-drop n cs)

length-drop : (n : ℕ) (cs : List ℕ) → length (drop n cs) ≡ length cs - n
length-drop zero cs = omega arith
length-drop (suc n) [] = omega arith
length-drop (suc n) (c ∷ cs) = length-drop n cs ∙ omega arith

write_file_from_lem :
    (f : ℕ) (source : List ℕ) → length source < f → write_file_from f source ≡ some source
unfolding write_file_from
write_file_from_lem zero source h = absurd (omega arith)
write_file_from_lem (suc f) source h = elim (Bool-cases (ltb (length source) 128)) [
  | inl short ↦ rw (short, write_file_from) refl
  | inr long ↦
      let rest = write_file_from_lem f (drop 128 source) (ground (arith, length-drop 128 source)) in
      rw (long, write_file_from) (rw rest (ap some (take-drop 128 source)))
]

write_file_lem : (source : List ℕ) → write_file source ≡ some source
unfolding write_file
write_file_lem source = write_file_from_lem (suc (length source)) source (omega arith)

-- The modules, each behind its size.
abbrev pub packed : List (List ℕ) → List ℕ
packed [] = []
packed (x ∷ xs) = uint_32_bytes (length x) ++ x ++ packed xs

build_modules-packed : (xs : List (List ℕ)) → build_modules xs ≡ some (packed xs)
unfolding build_modules
build_modules-packed [] = refl
build_modules-packed (x ∷ xs) =
    rw (write_file_lem x, build_modules) (rw (build_modules-packed xs) refl)

-- `buildImage` ends, and writes the kernel, the number of the modules, and each module behind its size.
pub build_image-packed :
    (kernel : List ℕ) (xs : List (List ℕ))
    → build_image kernel xs ≡ some (kernel ++ uint_32_bytes (length xs) ++ packed xs)
unfolding build_image
build_image-packed kernel xs =
    rw (write_file_lem kernel, build_image) (rw (build_modules-packed xs) refl)
