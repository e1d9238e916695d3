-- ===== src/Memory/Buddy/Shape.antt =====
-- The well-formed trees of mem_buddy.c, the blocks that a tree has handed out, and how they lie.
use boke_os.Base.{
  ℕ, ◌+◌, ◌*◌, ◌/◌, ◌≤◌, ◌<◌, ◌≡◌, refl, ◌≢◌, List, [], ◌∷◌, ◌++◌, arith, ◌==◌, if◌then◌else◌,
}
use Prim.Native.Nat.{max}
use boke_os.Memory.Buddy.{free, parcial, Node, leaf, branch, info, combine, is_allocated, is_free}

-- A node of the tree at index `i`, for the `z` bytes from `s` on. A node with children is never
-- FREE (it would have been merged), and its state is that of `check_state`.
abbrev pub Valid : ℕ → ℕ → ℕ → Node → Type 0
Valid i s z (leaf n) = (n.index ≡ i) × (n.start ≡ s) × (n.size ≡ z) × (0 < z) × (n.state ≢ parcial)
Valid i s z (branch n l r) =
    (n.index ≡ i)
    × (n.start ≡ s)
    × (n.size ≡ z)
    × (n.state ≡ combine (info l).state (info r).state)
    × (n.state ≢ free)
    × (2 ≤ z)
    × Valid (i * 2 + 1) s (z / 2) l
    × Valid (i * 2 + 2) (s + z / 2) (z / 2) r

-- Start and size of each block that is handed out, in the order of the addresses.
abbrev pub Blocks : Type 0
Blocks = List (ℕ × ℕ)

abbrev pub blocks : Node → Blocks
blocks (leaf n) = if is_allocated n.state then (n.start, n.size) ∷ [] else []
blocks (branch n l r) = blocks l ++ blocks r

-- The size of the largest free leaf, 0 if there is none.
abbrev pub largest_free : Node → ℕ
largest_free (leaf n) = if is_free n.state then n.size else 0
largest_free (branch n l r) = max (largest_free l) (largest_free r)

-- The blocks lie between `s` and `e`, are not empty, and none overlaps the next.
abbrev pub Apart : ℕ → ℕ → Blocks → Type 0
Apart s e [] = s ≤ e
Apart s e ((p, z) ∷ xs) = (s ≤ p) × (0 < z) × Apart (p + z) e xs

-- The list without the block that starts at `p`.
abbrev pub without : ℕ → Blocks → Blocks
without p [] = []
without p ((q, z) ∷ xs) = let rest = without p xs in if q == p then rest else (q, z) ∷ rest

pub size_of : (i s z : ℕ) (t : Node) → Valid i s z t → ((info t).start ≡ s) × ((info t).size ≡ z)
size_of i s z (leaf n) v = (v.1, v.2)
size_of i s z (branch n l r) v = (v.1, v.2)

Apart-le : (s e : ℕ) (xs : Blocks) → Apart s e xs → s ≤ e
Apart-le s e [] a = a
Apart-le s e ((p, z) ∷ xs) a = omega (arith, Apart-le (p + z) e xs a.2)

Apart-weaken : (s s' e e' : ℕ) (xs : Blocks) → s' ≤ s → e ≤ e' → Apart s e xs → Apart s' e' xs
Apart-weaken s s' e e' [] h k a = omega arith
Apart-weaken s s' e e' ((p, z) ∷ xs) h k a =
    (omega arith, a.1, Apart-weaken (p + z) (p + z) e e' xs (omega arith) k a.2)

pub Apart-append : (s m e : ℕ) (xs ys : Blocks) → Apart s m xs → Apart m e ys → Apart s e (xs ++ ys)
Apart-append s m e [] ys a b = Apart-weaken m s e e ys a (omega arith) b
Apart-append s m e ((p, z) ∷ xs) ys a b = (a.0, a.1, Apart-append (p + z) m e xs ys a.2 b)

-- The blocks of a well-formed tree lie apart, inside the memory of the tree.
pub blocks-Apart : (i s z : ℕ) (t : Node) → Valid i s z t → Apart s (s + z) (blocks t)
blocks-Apart i s z (leaf n) v = ground arith
blocks-Apart i s z (branch n l r) v =
    let h = z / 2 in
    Apart-append s (s + h) (s + z) (blocks l) (blocks r) (blocks-Apart (i * 2 + 1) s h l v.6) (
      Apart-weaken (s + h) (s + h) (s + h + h) (s + z) (blocks r) (omega arith) (omega arith)
        (blocks-Apart (i * 2 + 2) (s + h) h r v.7))

pub without-append : (p : ℕ) (xs ys : Blocks) → without p (xs ++ ys) ≡ without p xs ++ without p ys
without-append p [] ys = refl
without-append p ((q, z) ∷ xs) ys = ground (arith, without-append p xs ys)

-- An address outside the range of the blocks starts none of them.
pub without_below : (s e p : ℕ) (xs : Blocks) → Apart s e xs → p < s → without p xs ≡ xs
without_below s e p [] a h = refl
without_below s e p ((q, z) ∷ xs) a h = ground (arith, without_below (q + z) e p xs a.2)

pub without_above : (s e p : ℕ) (xs : Blocks) → Apart s e xs → e ≤ p → without p xs ≡ xs
without_above s e p [] a h = refl
without_above s e p ((q, z) ∷ xs) a h =
    ground (arith, without_above (q + z) e p xs a.2, Apart-le (q + z) e xs a.2)
