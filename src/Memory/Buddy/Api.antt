-- ===== src/Memory/Buddy/Api.antt =====
-- `init_mm`, `malloc` and `free` of mem_buddy.c.
use boke_os.Base.{
  ℕ, ◌+◌, ◌-◌, ◌*◌, ◌/◌, ◌%◌, ◌^◌, ◌≤◌, ◌<◌, ◌≡◌, refl, ◌⊎◌, inl, inr, [], ◌∷◌, ◌++◌, arith, ltb,
  Bool-cases, ltb→lt, ◌∙◌, ap, sym, ◌↔◌, Option, some, eq_of_some,
}
use mathlib.Core.Path.{subst}
use boke_os.Memory.Buddy.{
  Manager, Node, leaf, branch, info, init_mm, malloc, release, rounded, Outcome, u64, Storage,
}
use boke_os.Memory.Buddy.Shape.{
  Valid, Blocks, blocks, largest_free, size_of, Apart, blocks-Apart, without,
}
use boke_os.Memory.Buddy.Free.{free_rec-Valid, blocks-free_rec}
use boke_os.Memory.Buddy.Malloc.{IsClean, Served, Ended, refused, served, malloc_rec-Ended}
use boke_os.Memory.Buddy.Rounding.{Rounds, rounded-Rounds, rounded-le}

-- The manager of the `z` bytes from `s` on. `z` is at most 2 ^ 30, since `malloc` rounds in an
-- `int`, and no block starts at 0, which is NULL.
pub record IsValid (s z : ℕ) (m : Manager) : Type 0 where
  pub tree : Valid 0 s z m.root
  pub start : 0 < s
  pub small : z ≤ 2 ^ 30

-- `malloc` gave NULL and changed nothing: no free leaf has as many bytes as the rounded request.
pub record Refusal (bytes : ℕ) (m : Manager) (p : ℕ) (m' : Manager) : Type 0 where
  pub null : p ≡ 0
  pub same : m' ≡ m
  pub full : (b : ℕ) → rounded bytes ≡ some b → largest_free m.root < b

-- `malloc` handed out a block for the rounded request.
pub record Grant (s z bytes : ℕ) (m : Manager) (p : ℕ) (m' : Manager) : Type 0 where
  pub asked : ℕ
  pub rounds : Rounds bytes asked
  pub rounding : rounded bytes ≡ some asked
  pub not_null : 0 < p
  pub block : Served 0 s z m.root asked m.mem_allocated p m'.root m'.mem_allocated

abbrev pub Answer : ℕ → ℕ → ℕ → Manager → ℕ → Manager → Type 0
Answer s z bytes m p m' = Refusal bytes m p m' ⊎ Grant s z bytes m p m'

largest_free-le : (i s z : ℕ) (t : Node) → Valid i s z t → largest_free t ≤ z
largest_free-le i s z (leaf n) v = ground arith
largest_free-le i s z (branch n l r) v = omega (
  arith,
  largest_free-le (i * 2 + 1) s (z / 2) l v.6,
  largest_free-le (i * 2 + 2) (s + z / 2) (z / 2) r v.7,
)

Answer-of_Ended :
    (s z bytes b : ℕ) (m : Manager) (o : Option Outcome)
    → rounded bytes ≡ some b
    → Rounds bytes b
    → Ended 0 s z m.root b m.mem_allocated o
    → (p : ℕ) × (t' : Node) × (used : ℕ) × (o ≡ some (p, t', used))
      × Answer s z bytes m p (record { root = t'; mem_allocated = used })
Answer-of_Ended s z bytes b m o e r (refused h) = (
  0,
  m.root,
  m.mem_allocated,
  refl,
  inl (record { null = refl; same = refl; full = λ c k. ground arith }),
)
Answer-of_Ended s z bytes b m o e r (served {p} {t'} {m'} hp w) = (
  p,
  t',
  m',
  refl,
  inr (record { asked = b; rounds = r; rounding = e; not_null = hp; block = w }),
)

-- While the storage of the nodes that are not in the tree holds NULL pointers, `malloc` on a well-formed
-- manager returns, and either refuses and changes nothing because no free leaf is large enough, or hands
-- out a block from a free leaf.
pub malloc-Answer :
    (st : Storage) (s z bytes : ℕ) (m : Manager)
    → IsClean st
    → IsValid s z m
    → (p : ℕ) × (m' : Manager) × (malloc st bytes m ≡ some (p, m')) × Answer s z bytes m p m'
unfolding malloc
malloc-Answer st s z bytes m c v = elim (Bool-cases (ltb (info m.root).size bytes)) [
  | inl lt ↦ (
    0,
    m,
    rw lt,
    inl (record {
      null = refl;
      same = refl;
      full = λ b e. omega (
        arith,
        ltb→lt _ _ lt,
        size_of 0 s z m.root v.tree,
        largest_free-le 0 s z m.root v.tree,
        rounded-le bytes b e,
      );
    }),
  )
  | inr ge ↦
      let (b, e, r) = rounded-Rounds bytes (ground (arith, size_of 0 s z m.root v.tree, v.small)) in
      let (p, t', used, run, a) = Answer-of_Ended s z bytes b m _ e r (
        malloc_rec-Ended st ((info m.root).size + 1) 0 s z m.root b m.mem_allocated c v.tree
          (omega (arith, size_of 0 s z m.root v.tree)) r.positive v.start) in
      (p, record { root = t'; mem_allocated = used }, rw (ge, e, run), a)
]

module _ (st : Storage) (s z bytes p : ℕ) (m m' : Manager) where
  pub Answer-of :
      IsClean st → IsValid s z m → malloc st bytes m ≡ some (p, m') → Answer s z bytes m p m'
  Answer-of c v e =
      let (q, n, e', a) = malloc-Answer st s z bytes m c v in
      subst (λ (r : ℕ × Manager). Answer s z bytes m r.0 r.1) (eq_of_some (sym e' ∙ e)) a

  pub Grant-of :
      IsClean st → IsValid s z m → malloc st bytes m ≡ some (p, m') → 0 < p → Grant s z bytes m p m'
  Grant-of c v e h = elim (Answer-of c v e) [ inl r ↦ absurd (omega (arith, r.null)) | inr g ↦ g ]

  -- `malloc` keeps the manager well formed.
  pub malloc-IsValid :
      IsClean st → IsValid s z m → malloc st bytes m ≡ some (p, m') → IsValid s z m'
  malloc-IsValid c v e = elim (Answer-of c v e) [
    | inl r ↦ rw (r.same) v
    | inr g ↦ record { tree = g.block.valid; start = v.start; small = v.small }
  ]

  -- While the storage of the nodes that are not in the tree holds NULL pointers: a block that `malloc`
  -- hands out has at least the requested bytes, is new, and lies apart from
  -- all the others, which stay as they are.
  pub malloc-blocks :
      IsClean st
      → IsValid s z m
      → malloc st bytes m ≡ some (p, m')
      → 0 < p
      → (size : ℕ) × (before after : Blocks) × (bytes ≤ size)
        × (blocks m.root ≡ before ++ after)
        × (blocks m'.root ≡ before ++ (p, size) ∷ after)
        × Apart s (s + z) (before ++ (p, size) ∷ after)
  malloc-blocks c v e h =
      let g = Grant-of c v e h in
      let w = g.block in
      (
        w.size,
        w.before,
        w.after,
        omega (arith, w.fits, g.rounds.enough),
        w.old,
        w.new,
        rw (← w.new) (blocks-Apart 0 s z m'.root w.valid),
      )

  -- With such a storage, `malloc` gives NULL exactly when no free leaf has as many bytes as the rounded request.
  pub malloc-null_iff :
      (b : ℕ)
      → IsClean st
      → IsValid s z m
      → malloc st bytes m ≡ some (p, m')
      → rounded bytes ≡ some b
      → (p ≡ 0) ↔ (largest_free m.root < b)
  malloc-null_iff b c v e round = elim (Answer-of c v e) [
    | inl r ↦ (λ _. r.full b round, λ _. r.null)
    | inr g ↦
        let same : g.asked ≡ b = eq_of_some (sym g.rounding ∙ round) in
        (λ h. omega (arith, g.not_null), λ h. omega (arith, g.block.room))
  ]

  -- While the storage of the nodes that are not in the tree holds NULL pointers: `free` of a block that
  -- `malloc` has just handed out brings back the tree, and takes the size of
  -- the block from `mem_allocated`, to which `malloc` had added the rounded request.
  pub release-malloc :
      (b : ℕ)
      → IsClean st
      → IsValid s z m
      → malloc st bytes m ≡ some (p, m')
      → 0 < p
      → rounded bytes ≡ some b
      → ((release p m').root ≡ m.root)
        × ((size : ℕ) × (b ≤ size)
            × (size < b * 2)
            × ((release p m').mem_allocated ≡ ((m.mem_allocated + b) % u64 + u64 - size) % u64))
  unfolding release
  release-malloc b c v e h round =
      let g = Grant-of c v e h in
      let w = g.block in
      let same : g.asked ≡ b = eq_of_some (sym g.rounding ∙ round) in
      (
        ap (λ (x : Node × ℕ). x.0) (w.undo m'.mem_allocated),
        (
          w.size,
          omega (arith, w.fits),
          omega (arith, w.tight),
          ap (λ (x : Node × ℕ). x.1) (w.undo m'.mem_allocated) ∙ rw (w.used, same),
        ),
      )

module _ (s z p : ℕ) (m : Manager) where
  release-IsValid : IsValid s z m → IsValid s z (release p m)
  unfolding release
  release-IsValid v = record {
    tree = free_rec-Valid 0 s z m.root p m.mem_allocated v.tree;
    start = v.start;
    small = v.small;
  }

  -- `free` keeps the manager well formed, whatever the pointer, and takes back exactly the block that
  -- starts at it, if there is one.
  pub blocks-release :
      IsValid s z m
      → IsValid s z (release p m) × (blocks (release p m).root ≡ without p (blocks m.root))
  unfolding release
  blocks-release v = (release-IsValid v, blocks-free_rec 0 s z m.root p m.mem_allocated v.tree)

-- `init_mm` gives a well-formed manager with all its memory free.
init_mm-IsValid :
    (z : ℕ) (m : Manager)
    → 0 < z
    → z ≤ 2 ^ 30
    → IsValid z z (init_mm z m)
      × (blocks (init_mm z m).root ≡ [])
      × (largest_free (init_mm z m).root ≡ z)
unfolding init_mm
init_mm-IsValid z m h k =
    (record { tree = (refl, refl, refl, h, λ q. cc); start = h; small = k }, refl, refl)
