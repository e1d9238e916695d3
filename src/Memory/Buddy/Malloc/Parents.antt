-- ===== src/Memory/Buddy/Malloc/Parents.antt =====
-- What a call of `malloc_rec` that hands out a block has done, and how the work of a child becomes
-- that of its parent.
use boke_os.Base.{
  ℕ, ◌+◌, ◌-◌, ◌*◌, ◌/◌, ◌%◌, ◌≤◌, ◌<◌, ◌≡◌, refl, ◌≢◌, false, [], ◌∷◌, ◌++◌, arith, ltb, lt→ltb,
  ◌∙◌, ap, sym,
}
use mathlib.Core.List.{append_assoc}
use boke_os.Memory.Buddy.{
  State, free, Info, Node, branch, info, combine, merge, free_rec, u64, check_state,
}
use boke_os.Memory.Buddy.Shape.{Valid, Blocks, blocks, largest_free, size_of}
use boke_os.Memory.Buddy.Free.{blocks-free, ValidParts, free_rec_left, free_rec_right}

-- From `t` a block of at least `b` bytes, but less than twice as many, was handed out at `p`, and
-- `t'` is the tree after that. Every other block stays, and `free_rec` of the block brings `t` back.
pub record Served (i s z : ℕ) (t : Node) (b m p : ℕ) (t' : Node) (m' : ℕ) : Type 0 where
  pub size : ℕ
  pub before : Blocks
  pub after : Blocks
  pub valid : Valid i s z t'
  pub fits : b ≤ size
  pub tight : size / 2 < b
  pub from : s ≤ p
  pub upto : p + size ≤ s + z
  pub old : blocks t ≡ before ++ after
  pub new : blocks t' ≡ before ++ (p, size) ∷ after
  pub room : b ≤ largest_free t
  pub used : m' ≡ (m + b) % u64
  pub undo : (k : ℕ) → free_rec t' p k ≡ (t, (k + u64 - size) % u64)

cons-ne-nil : (xs ys : Blocks) (x : ℕ × ℕ) → xs ++ x ∷ ys ≢ []
cons-ne-nil [] ys x e = cc
cons-ne-nil (y ∷ xs) ys x e = cc

-- A tree that holds the block is not free.
not_free :
    (i s z : ℕ) (t : Node) (xs ys : Blocks) (x : ℕ × ℕ)
    → Valid i s z t
    → blocks t ≡ xs ++ x ∷ ys
    → (info t).state ≢ free
not_free i s z t xs ys x v e h = cons-ne-nil xs ys x (sym e ∙ blocks-free i s z t v h)

le→ltb : (a b : ℕ) → a ≤ b → ltb b a ≡ false
le→ltb a b h = ground arith

combine_left : (a b : State) → a ≢ free → combine a b ≢ free
combine_left a b h = ground arith

combine_right : (a b : State) → b ≢ free → combine a b ≢ free
combine_right a b h = ground arith

merge_state : (n : Info) (a : State) (l r : Node) → merge (record n { state = a }) l r ≡ merge n l r
unfolding merge
merge_state n a l r = refl

module _ (i s z : ℕ) (n : Info) (l r t : Node) (b m p m' : ℕ) where
  pub Served-left :
      (l' : Node)
      → 0 < b
      → ValidParts i s z n l r
      → blocks t ≡ blocks l ++ blocks r
      → merge n l r ≡ t
      → b ≤ largest_free t
      → Served (i * 2 + 1) s (z / 2) l b m p l' m'
      → Served i s z t b m p (check_state (branch n l' r)) m'
  unfolding check_state
  Served-left l' pos v e whole large w = record {
    size = w.size;
    before = w.before;
    after = w.after ++ blocks r;
    valid = (
      v.0,
      v.1,
      v.2,
      refl,
      combine_left _ _ (not_free _ _ _ l' _ _ _ w.valid w.new),
      v.3,
      w.valid,
      v.5,
    );
    fits = w.fits;
    tight = w.tight;
    from = w.from;
    upto = omega (arith, w.upto);
    old = e ∙ ap (λ x. x ++ blocks r) w.old ∙ append_assoc w.before w.after (blocks r);
    new = ap (λ x. x ++ blocks r) w.new ∙ append_assoc w.before _ (blocks r);
    room = large;
    used = w.used;
    undo = λ k.
        free_rec_left _ l' r p k (lt→ltb _ _ (omega (arith, w.upto, w.fits, size_of _ _ _ r v.5)))
        ∙ rw (w.undo k, merge_state n _ l r) (ap (λ x. (x, (k + u64 - w.size) % u64)) whole);
  }

  pub Served-right :
      (r' : Node)
      → 0 < b
      → ValidParts i s z n l r
      → blocks t ≡ blocks l ++ blocks r
      → merge n l r ≡ t
      → b ≤ largest_free t
      → Served (i * 2 + 2) (s + z / 2) (z / 2) r b m p r' m'
      → Served i s z t b m p (check_state (branch n l r')) m'
  unfolding check_state
  Served-right r' pos v e whole large w = record {
    size = w.size;
    before = blocks l ++ w.before;
    after = w.after;
    valid = (
      v.0,
      v.1,
      v.2,
      refl,
      combine_right _ _ (not_free _ _ _ r' _ _ _ w.valid w.new),
      v.3,
      v.4,
      w.valid,
    );
    fits = w.fits;
    tight = w.tight;
    from = omega (arith, w.from);
    upto = omega (arith, w.upto);
    old = e ∙ ap (λ x. blocks l ++ x) w.old ∙ sym (append_assoc (blocks l) w.before w.after);
    new = ap (λ x. blocks l ++ x) w.new ∙ sym (append_assoc (blocks l) w.before _);
    room = large;
    used = w.used;
    undo = λ k.
        free_rec_right _ l r' p k
          (le→ltb (info r').start p (omega (arith, w.from, size_of _ _ _ r' w.valid)))
        ∙ rw (w.undo k, merge_state n _ l r) (ap (λ x. (x, (k + u64 - w.size) % u64)) whole);
  }
