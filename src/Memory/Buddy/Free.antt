-- ===== src/Memory/Buddy/Free.antt =====
-- `free_rec` of mem_buddy.c: it keeps the tree well formed, and takes back exactly the block that
-- starts at the pointer.
use boke_os.Base.{
  ℕ, ◌+◌, ◌*◌, ◌/◌, ◌≤◌, ◌≡◌, refl, inl, inr, true, false, [], ◌++◌, arith, ltb, Bool-cases, ◌∙◌,
}
use boke_os.Memory.Buddy.{
  State, free, Info, Node, leaf, branch, info, combine, is_free, merge, free_rec,
}
use boke_os.Memory.Buddy.Shape.{
  Valid, blocks, without, without-append, without_below, without_above, blocks-Apart, size_of,
}

-- A free node of a well-formed tree holds no block.
pub blocks-free : (i s z : ℕ) (t : Node) → Valid i s z t → (info t).state ≡ free → blocks t ≡ []
blocks-free i s z (leaf n) v e = ground arith
blocks-free i s z (branch n l r) v e = absurd (v.4 e)

combine_free : (a b : State) → combine a b ≡ free → (a ≡ free) × (b ≡ free)
combine_free a b e = ground arith

module _ (i s z : ℕ) (n : Info) (l r : Node) where
  -- The place of the node and its children; nothing is said of its state.
  abbrev pub ValidParts : Type 0
  ValidParts =
      (n.index ≡ i)
      × (n.start ≡ s)
      × (n.size ≡ z)
      × (2 ≤ z)
      × Valid (i * 2 + 1) s (z / 2) l
      × Valid (i * 2 + 2) (s + z / 2) (z / 2) r

  pub merge-Valid : ValidParts → Valid i s z (merge n l r)
  unfolding merge
  merge-Valid v = elim (Bool-cases (is_free (combine (info l).state (info r).state))) [
    | inl e ↦ rw e (v.0, v.1, v.2, omega arith, ground arith)
    | inr e ↦ rw e (v.0, v.1, v.2, refl, ground arith, v.3, v.4, v.5)
  ]

  pub blocks-merge : ValidParts → blocks (merge n l r) ≡ blocks l ++ blocks r
  unfolding merge
  blocks-merge v = elim (Bool-cases (is_free (combine (info l).state (info r).state))) [
    | inl e ↦
        let both = combine_free (info l).state (info r).state (ground arith) in
        rw (both.0, both.1, blocks-free _ _ _ l v.4 both.0, blocks-free _ _ _ r v.5 both.1)
    | inr e ↦ rw e
  ]

module _ (n : Info) (l r : Node) (p m : ℕ) where
  pub free_rec_left :
      ltb p (info r).start ≡ true
      → free_rec (branch n l r) p m ≡ (merge n (free_rec l p m).0 r, (free_rec l p m).1)
  unfolding free_rec
  free_rec_left e = ground arith

  pub free_rec_right :
      ltb p (info r).start ≡ false
      → free_rec (branch n l r) p m ≡ (merge n l (free_rec r p m).0, (free_rec r p m).1)
  unfolding free_rec
  free_rec_right e = ground arith

-- `free_rec` keeps a tree well formed, whatever the pointer.
pub free_rec-Valid :
    (i s z : ℕ) (t : Node) (p m : ℕ) → Valid i s z t → Valid i s z (free_rec t p m).0
unfolding free_rec
free_rec-Valid i s z (leaf n) p m v = ground arith
free_rec-Valid i s z (branch n l r) p m v = elim (Bool-cases (ltb p (info r).start)) [
  | inl e ↦ rw (free_rec_left n l r p m e) (
      merge-Valid i s z n (free_rec l p m).0 r
        (v.0, v.1, v.2, v.5, free_rec-Valid (i * 2 + 1) s (z / 2) l p m v.6, v.7))
  | inr e ↦ rw (free_rec_right n l r p m e) (
      merge-Valid i s z n l (free_rec r p m).0
        (v.0, v.1, v.2, v.5, v.6, free_rec-Valid (i * 2 + 2) (s + z / 2) (z / 2) r p m v.7))
]

-- The blocks after `free_rec` are those before, without the one that starts at the pointer.
pub blocks-free_rec :
    (i s z : ℕ) (t : Node) (p m : ℕ)
    → Valid i s z t
    → blocks (free_rec t p m).0 ≡ without p (blocks t)
unfolding free_rec
blocks-free_rec i s z (leaf n) p m v = ground arith
blocks-free_rec i s z (branch n l r) p m v = elim (Bool-cases (ltb p (info r).start)) [
  | inl e ↦ rw (free_rec_left n l r p m e) (
      blocks-merge i s z n (free_rec l p m).0 r
        (v.0, v.1, v.2, v.5, free_rec-Valid (i * 2 + 1) s (z / 2) l p m v.6, v.7)
      ∙ rw (
        blocks-free_rec (i * 2 + 1) s (z / 2) l p m v.6,
        without-append p (blocks l) (blocks r),
        without_below (s + z / 2) (s + z / 2 + z / 2) p (blocks r)
            (blocks-Apart (i * 2 + 2) (s + z / 2) (z / 2) r v.7)
            (ground (arith, size_of (i * 2 + 2) (s + z / 2) (z / 2) r v.7)),
      ))
  | inr e ↦ rw (free_rec_right n l r p m e) (
      blocks-merge i s z n l (free_rec r p m).0
        (v.0, v.1, v.2, v.5, v.6, free_rec-Valid (i * 2 + 2) (s + z / 2) (z / 2) r p m v.7)
      ∙ rw (
        blocks-free_rec (i * 2 + 2) (s + z / 2) (z / 2) r p m v.7,
        without-append p (blocks l) (blocks r),
        without_above s (s + z / 2) p (blocks l) (blocks-Apart (i * 2 + 1) s (z / 2) l v.6)
            (ground (arith, size_of (i * 2 + 2) (s + z / 2) (z / 2) r v.7)),
      ))
]
