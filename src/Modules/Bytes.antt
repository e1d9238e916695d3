-- ===== src/Modules/Bytes.antt =====
-- Bytes in memory, which Kernel/moduleLoader.c reads and copies.
use boke_os.Base.{
  ℕ, suc, ◌+◌, ◌-◌, ◌/◌, ◌%◌, ◌^◌, ◌≤◌, ◌<◌, ◌≡◌, ◌∙◌, ap, ◌⊎◌, List, [], ◌∷◌, ◌++◌, length, ◌&&◌,
  ltb, leb, if◌then◌else◌, arith,
}
use mathlib.Core.Path.{subst}
use boke_os.Strings.{Memory, memcpy}
use boke_os.Strings.Laws.{memcpy_lem}
use boke_os.Modules.{uint_32_bytes, read_uint_32, load_module}

-- The bytes from the address `a` on are `bs`.
abbrev pub Stored : Memory → ℕ → List ℕ → Type 0
Stored m a [] = Unit
Stored m a (b ∷ bs) = (m a ≡ b) × Stored m (a + 1) bs

-- What is stored at `a` is stored at `b` of another memory that has the same bytes there.
pub Stored-moved :
    (m m' : Memory) (a b : ℕ) (bs : List ℕ)
    → ((i : ℕ) → i < length bs → m' (b + i) ≡ m (a + i))
    → Stored m a bs
    → Stored m' b bs
Stored-moved m m' a b [] h k = tt
Stored-moved m m' a b (c ∷ bs) h k =
    let first : m' b ≡ m a =
      subst (λ x. m' x ≡ m a) (omega arith)
        (subst (λ x. m' (b + 0) ≡ m x) (omega arith) (h 0 (omega arith))) in
    (
      first ∙ k.0,
      Stored-moved m m' (a + 1) (b + 1) bs
          (λ i l.
            subst (λ x. m' x ≡ m (a + 1 + i)) (omega arith)
              (subst (λ x. m' (b + suc i) ≡ m x) (omega arith) (h (suc i) (omega arith))))
          k.1,
    )

pub Stored-append :
    (m : Memory) (a : ℕ) (bs cs : List ℕ)
    → Stored m a (bs ++ cs)
    → Stored m a bs × Stored m (a + length bs) cs
Stored-append m a [] cs h = (tt, subst (λ x. Stored m x cs) (omega arith) h)
Stored-append m a (b ∷ bs) cs h =
    let (front, back) = Stored-append m (a + 1) bs cs h.1 in
    ((h.0, front), subst (λ x. Stored m x cs) (omega arith) back)

-- A size that was written is read.
pub read_uint_32-bytes :
    (m : Memory) (a n : ℕ)
    → n < 2 ^ 32
    → Stored m a (uint_32_bytes n)
    → read_uint_32 m a ≡ (n, a + 4)
unfolding read_uint_32 uint_32_bytes
read_uint_32-bytes m a n h k =
    let third : m (a + 2) ≡ n / 65536 % 256 =
      subst (λ x. m x ≡ n / 65536 % 256) (omega arith) k.1.1.0 in
    let fourth : m (a + 3) ≡ n / 16777216 % 256 =
      subst (λ x. m x ≡ n / 16777216 % 256) (omega arith) k.1.1.1.0 in
    ap (λ x. (x, a + 4)) (omega (arith, k.0, k.1.0, third, fourth, h))

-- Two ranges of bytes do not overlap.
abbrev pub Apart : (a n b k : ℕ) → Type 0
Apart a n b k = (a + n ≤ b) ⊎ (b + k ≤ a)

copied_byte :
    (m : Memory) (a target i n : ℕ)
    → i < n
    → (if leb target (target + i) && ltb (target + i) (target + n)
        then m (a + 4 + (target + i - target))
        else m (target + i))
      ≡ m (a + 4 + i)
copied_byte m a target i n h =
    let same : target + i - target ≡ i = omega arith in ground (arith, ap (λ x. m (a + 4 + x)) same)

-- `load_module` copies a module that does not overlap its target, and changes nothing else.
pub load_module-Stored :
    (m : Memory) (a target : ℕ) (bs : List ℕ)
    → length bs < 2 ^ 32
    → Stored m a (uint_32_bytes (length bs) ++ bs)
    → Apart target (length bs) a (4 + length bs)
    → ((load_module m a target).1 ≡ a + (4 + length bs))
      × Stored (load_module m a target).0 target bs
      × ((b : ℕ) → (b < target) ⊎ (target + length bs ≤ b) → (load_module m a target).0 b ≡ m b)
unfolding load_module uint_32_bytes
load_module-Stored m a target bs h k apart =
    let (size, code) = Stored-append m a (uint_32_bytes (length bs)) bs k in
    let read = read_uint_32-bytes m a (length bs) h size in
    rw (read, load_module)
      (
        omega arith,
        Stored-moved m (memcpy m target (a + 4) (length bs)) (a + 4) target bs
            (λ i l.
              memcpy_lem m target (a + 4) (length bs) (target + i) (omega arith)
              ∙ copied_byte m a target i (length bs) l)
            code,
        λ b away. memcpy_lem m target (a + 4) (length bs) b (omega arith) ∙ ground arith,
      )
