-- ===== src/Modules.antt =====
-- The image of the system: Toolchain/ModulePacker/main.c, which puts the kernel and the modules into one
-- file, and Kernel/moduleLoader.c, which copies the modules from behind the kernel to their places. A file
-- is the list of its bytes.
pub mod Image
pub mod Bytes
pub mod Loading
mod Tests
use boke_os.Base.{
  true, false, ℕ, zero, suc, ◌+◌, ◌-◌, ◌*◌, ◌/◌, ◌%◌, Option, none, some, List, [], ◌∷◌, ◌++◌, ltb,
  length, take, drop,
}
use boke_os.Strings.{Memory, memcpy}

-- The four bytes of a `uint32_t`, the lowest first.
unfoldable pub uint_32_bytes : ℕ → List ℕ
uint_32_bytes n = n % 256 ∷ n / 256 % 256 ∷ n / 65536 % 256 ∷ n / 16777216 % 256 ∷ []

-- The loop of `write_file`, on fuel: `feof` holds once `fread` has given less than it was asked for.
unfoldable pub write_file_from : ℕ → (source : List ℕ) → Option (List ℕ)
write_file_from zero source = none
write_file_from (suc f) source = elim (ltb (length source) 128) [
  | true ↦ some source
  | false ↦ elim (write_file_from f (drop 128 source)) [
    | none ↦ none
    | some written ↦ some (take 128 source ++ written)
  ]
]

-- `write_file`; every round but the last takes 128 bytes.
unfoldable pub write_file : (source : List ℕ) → Option (List ℕ)
write_file source = write_file_from (suc (length source)) source

-- `write_size`
abbrev pub write_size : (file : List ℕ) → List ℕ
write_size file = uint_32_bytes (length file)

-- `for (i = 1 ; i < fileArray.length ; i++)` of `buildImage`, over the files that are left.
unfoldable pub build_modules : List (List ℕ) → Option (List ℕ)
build_modules [] = some []
build_modules (file ∷ files) = elim (write_file file) [
  | none ↦ none
  | some written ↦ elim (build_modules files) [
    | none ↦ none
    | some behind ↦ some (write_size file ++ written ++ behind)
  ]
]

-- `buildImage` of files that can be opened.
unfoldable pub build_image : (kernel : List ℕ) (modules : List (List ℕ)) → Option (List ℕ)
build_image kernel modules = elim (write_file kernel) [
  | none ↦ none
  | some written ↦ elim (build_modules modules) [
    | none ↦ none
    | some behind ↦ some (written ++ uint_32_bytes (length modules) ++ behind)
  ]
]

-- `read_uint_32`: the number, and the address behind it.
unfoldable pub read_uint_32 : Memory → (address : ℕ) → ℕ × ℕ
read_uint_32 m a = (m a + m (a + 1) * 256 + m (a + 2) * 65536 + m (a + 3) * 16777216, a + 4)

-- `load_module`: the memory, and the address of the next module.
unfoldable pub load_module : Memory → (current_module target : ℕ) → Memory × ℕ
load_module m current_module target =
    let (module_size, from) = read_uint_32 m current_module in
    (memcpy m target from module_size, from + module_size)

-- The loop of `load_modules`, with the rounds that are left; `none` reads past the array of targets.
unfoldable pub load_from : (rounds : ℕ) → Memory → (current_module : ℕ) → List ℕ → Option Memory
load_from zero m current_module targets = some m
load_from (suc r) m current_module [] = none
load_from (suc r) m current_module (target ∷ targets) =
    let (m', next) = load_module m current_module target in load_from r m' next targets

-- `load_modules`
unfoldable pub load_modules :
    Memory → (payload_start : ℕ) → (target_module_address : List ℕ) → Option Memory
load_modules m payload_start targets =
    let (module_count, from) = read_uint_32 m payload_start in load_from module_count m from targets
