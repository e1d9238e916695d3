-- ===== src/Memory/Buddy/Malloc/Total.antt =====
-- Every call of `malloc_rec` on a well-formed tree ends, given more fuel than the size of the tree.
use boke_os.Base.{
  ℕ, zero, suc, ◌+◌, ◌-◌, ◌*◌, ◌/◌, ◌%◌, ◌≤◌, ◌<◌, ◌≡◌, refl, ◌≢◌, inl, inr, true, false, [], ◌++◌,
  arith, ◌==◌, ltb, leb, leb→le, ==_iff, Bool-cases, ◌∙◌, ap, sym, Option, none, some,
}
use boke_os.Memory.Buddy.{
  State, free, allocated, parcial, Info, Node, leaf, branch, info, combine, is_allocated, is_free,
  merge, free_rec, u64, Outcome, check_state, Storage, stored, create_childs, malloc_rec,
  malloc_children, malloc_split,
}
use boke_os.Memory.Buddy.Shape.{Valid, blocks, largest_free}
use boke_os.Memory.Buddy.Free.{ValidParts}
use boke_os.Memory.Buddy.Malloc.Parents.{Served, Served-left, Served-right}

-- The two ways for a call on `t` to end: NULL, with nothing changed and no free leaf of `b` bytes;
-- or a block.
pub data Ended (i s z : ℕ) (t : Node) (b m : ℕ) : Option Outcome → Type 0 where
  refused : largest_free t < b → Ended i s z t b m (some (0, t, m))
  served :
      {p : ℕ} {t' : Node} {m' : ℕ}
      → 0 < p
      → Served i s z t b m p t' m'
      → Ended i s z t b m (some (p, t', m'))

largest_free-allocated :
    (i s z : ℕ) (t : Node) → Valid i s z t → (info t).state ≡ allocated → largest_free t ≡ 0
largest_free-allocated i s z (leaf n) v e = ground arith
largest_free-allocated i s z (branch n l r) v e =
    let both = combine_allocated (info l).state (info r).state (sym v.3 ∙ e) in
    omega (
      arith,
      largest_free-allocated (i * 2 + 1) s (z / 2) l v.6 both.0,
      largest_free-allocated (i * 2 + 2) (s + z / 2) (z / 2) r v.7 both.1,
    )
  where
    combine_allocated : (a c : State) → combine a c ≡ allocated → (a ≡ allocated) × (c ≡ allocated)
    combine_allocated a c h = ground arith

allocated_of_test : (a : State) → is_allocated a ≡ true → a ≡ allocated
allocated_of_test a h = ground arith

ne_zero : (q : ℕ) → 0 < q → (q == 0) ≡ false
ne_zero q h = ground arith

module _ (i s z : ℕ) (n : Info) (l r : Node) (b m : ℕ) (pos : 0 < b) where
  -- Children of a node that has not changed give it back.
  same_node : Valid i s z (branch n l r) → check_state (branch n l r) ≡ branch n l r
  unfolding check_state
  same_node v = ap (λ a. branch (record n { state = a }) l r) (sym v.3)

  whole_node : Valid i s z (branch n l r) → merge n l r ≡ branch n l r
  unfolding merge
  whole_node v =
      rw (← v.3)
        (elim (Bool-cases (is_free n.state)) [ inl e ↦ absurd (v.4 (ground arith)) | inr e ↦ rw e ])

  -- The left child has refused, and `go m` is what the right child does.
  Ended-right :
      (q : Option Outcome) (go : ℕ → Option Outcome)
      → go m ≡ q
      → largest_free l < b
      → Valid i s z (branch n l r)
      → Ended (i * 2 + 2) (s + z / 2) (z / 2) r b m q
      → Ended i s z (branch n l r) b m (malloc_children n l r (some (0, l, m)) go)
  unfolding malloc_children
  Ended-right q go e small v (refused small') = rw (e, same_node v) (refused (omega arith))
  Ended-right q go e small v (served {p} {t' = r'} {m'} hp w) = rw e (
      served hp (
        Served-right i s z n l r (branch n l r) b m p m' r' pos (v.0, v.1, v.2, v.5, v.6, v.7) refl
          (whole_node v) (omega (arith, w.room)) w))

  Ended-children :
      (o : Option Outcome) (go : ℕ → Option Outcome)
      → Valid i s z (branch n l r)
      → Ended (i * 2 + 1) s (z / 2) l b m o
      → Ended (i * 2 + 2) (s + z / 2) (z / 2) r b m (go m)
      → Ended i s z (branch n l r) b m (malloc_children n l r o go)
  unfolding malloc_children
  Ended-children o go v (served {p} {t' = l'} {m'} hp w) right = rw (ne_zero p hp) (
      served hp (
        Served-left i s z n l r (branch n l r) b m p m' l' pos (v.0, v.1, v.2, v.5, v.6, v.7) refl
          (whole_node v) (omega (arith, w.room)) w))
  Ended-children o go v (refused small) right = Ended-right (go m) go refl small v right

-- A free leaf that is split serves the request from its left half.
Ended-split :
    (i s z : ℕ) (n : Info) (l r : Node) (b m : ℕ) (o : Option Outcome)
    → 0 < b
    → ValidParts i s z n l r
    → merge n l r ≡ leaf n
    → blocks (leaf n) ≡ blocks l ++ blocks r
    → b ≤ largest_free (leaf n)
    → b ≤ largest_free l
    → Ended (i * 2 + 1) s (z / 2) l b m o
    → Ended i s z (leaf n) b m (malloc_split n l r o)
unfolding malloc_split
Ended-split i s z n l r b m o pos v e whole large room (refused small) = absurd (omega arith)
Ended-split i s z n l r b m o pos v e whole large room (served {p} {t' = l'} {m'} hp w) =
    served hp (Served-left i s z n l r (leaf n) b m p m' l' pos v whole e large w)

-- The leaf itself is handed out.
Served-leaf :
    (i s z : ℕ) (n : Info) (b m : ℕ)
    → Valid i s z (leaf n)
    → n.state ≡ free
    → b ≤ n.size
    → n.size / 2 < b
    → Served i s z (leaf n) b m n.start (leaf (record n { state = allocated })) ((m + b) % u64)
unfolding free_rec
Served-leaf i s z n b m v e h k = record {
  size = n.size;
  before = [];
  after = [];
  valid = (v.0, v.1, v.2, v.3, λ q. cc);
  fits = h;
  tight = k;
  from = omega arith;
  upto = omega arith;
  old = rw e;
  new = refl;
  room = rw e h;
  used = refl;
  undo = λ j.
      rw ((==_iff n.start n.start).1 refl)
        (ap (λ a. (leaf (record n { state = a }), (j + u64 - n.size) % u64)) (sym e));
}

free_of_test : (a : State) → a ≢ parcial → is_allocated a ≡ false → a ≡ free
free_of_test a h k = ground arith

abbrev left_info : Info → Info
left_info n = record { start = n.start; size = n.size / 2; state = free; index = n.index * 2 + 1 }

abbrev right_info : Info → Info
right_info n = record {
  start = n.start + n.size / 2;
  size = n.size / 2;
  state = free;
  index = n.index * 2 + 2;
}

abbrev left_half : Info → Node
left_half n = leaf (left_info n)

abbrev right_half : Info → Node
right_half n = leaf (right_info n)

Ended-halves :
    (i s z : ℕ) (n : Info) (b m : ℕ) (o : Option Outcome)
    → Valid i s z (leaf n)
    → n.state ≡ free
    → b ≤ n.size / 2
    → 0 < b
    → Ended (i * 2 + 1) s (z / 2) (left_half n) b m o
    → Ended i s z (leaf n) b m (malloc_split n (left_half n) (right_half n) o)
unfolding merge
Ended-halves i s z n b m o v vacant large pos child =
    Ended-split i s z n (left_half n) (right_half n) b m o pos
      (
        v.0,
        v.1,
        v.2,
        omega arith,
        (omega arith, v.1, ap (λ x. x / 2) v.2, omega arith, λ q. cc),
        (omega arith, omega arith, ap (λ x. x / 2) v.2, omega arith, λ q. cc),
      )
      (ap (λ a. leaf (record n { state = a })) (sym vacant)) (rw vacant) (rw vacant (omega arith))
      large child

-- Where the storage holds NULL pointers, the new nodes have no children.
abbrev pub IsClean : Storage → Type 0
IsClean st = (i : ℕ) → st i ≡ none

stored-leaf : (st : Storage) (n : Info) → st n.index ≡ none → stored st n ≡ leaf n
unfolding stored
stored-leaf st n e = rw (e, stored) refl

-- `malloc_rec` with a fuel above the size of the tree ends in one of the two ways.
pub malloc_rec-Ended :
    (st : Storage) (f i s z : ℕ) (t : Node) (b m : ℕ)
    → IsClean st
    → Valid i s z t
    → z < f
    → 0 < b
    → 0 < s
    → Ended i s z t b m (malloc_rec st f t b m)
unfolding malloc_rec create_childs
malloc_rec-Ended st zero i s z t b m c v fuel pos start = absurd (omega arith)
malloc_rec-Ended st (suc f) i s z (branch n l r) b m c v fuel pos start =
    elim (Bool-cases (is_allocated n.state)) [
      | inl e ↦
          rw (e, malloc_rec)
            (refused (
              rw (largest_free-allocated i s z (branch n l r) v (allocated_of_test n.state e)) pos))
      | inr e ↦
          rw (e, malloc_rec)
            (Ended-children i s z n l r b m pos (malloc_rec st f l b m)
              (λ m'. malloc_rec st f r b m') v
              (malloc_rec-Ended st f (i * 2 + 1) s (z / 2) l b m c v.6 (omega arith) pos start)
              (malloc_rec-Ended st f (i * 2 + 2) (s + z / 2) (z / 2) r b m c v.7 (omega arith) pos
                (omega arith)))
    ]
malloc_rec-Ended st (suc f) i s z (leaf n) b m c v fuel pos start =
    elim (Bool-cases (is_allocated n.state)) [
      | inl e ↦
          rw (e, malloc_rec)
            (refused
              (rw (largest_free-allocated i s z (leaf n) v (allocated_of_test n.state e)) pos))
      | inr e ↦ elim (Bool-cases (ltb n.size b)) [
        | inl lt ↦ rw (e, lt, malloc_rec) (refused (ground arith))
        | inr ge ↦
            let vacant : n.state ≡ free = free_of_test n.state v.4 e in
            elim (Bool-cases (leb b (n.size / 2))) [
              | inl le ↦
                  let to_left = stored-leaf st (left_info n) (c (n.index * 2 + 1)) in
                  let to_right = stored-leaf st (right_info n) (c (n.index * 2 + 2)) in
                  rw (e, ge, le, malloc_rec, create_childs, to_left, to_right)
                    (Ended-halves i s z n b m _ v vacant (leb→le _ _ le) pos (
                      malloc_rec-Ended st f (i * 2 + 1) s (z / 2) (left_half n) b m c
                        (omega arith, v.1, ap (λ x. x / 2) v.2, ground arith, λ q. cc)
                        (ground arith) pos start))
              | inr gt ↦
                  rw (e, ge, gt, malloc_rec)
                    (served (omega arith)
                      (Served-leaf i s z n b m v vacant (ground arith) (ground arith)))
            ]
      ]
    ]
