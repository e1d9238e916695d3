-- ===== src/Memory/Buddy.antt =====
-- Kernel/memory_manager/mem_buddy.c: a binary tree of blocks, halved on demand and merged on free.
-- A `Node *` with both children NULL is a `leaf`; `create_childs` sets both children and
-- `free_rec` clears both, so a node with one child does not occur. `create_childs` leaves the pointers
-- of the new nodes as they stand in the storage, which is an argument of `malloc`: it says what they
-- lead to, by the index of the node, where the tree has no node. Addresses are numbers and NULL is 0;
-- sizes and `mem_allocated` are `uint64_t`.
pub mod Shape
pub mod Free
pub mod Malloc
pub mod Rounding
pub mod Api
mod Tests
use boke_os.Base.{
  ℕ, zero, suc, ◌+◌, ◌-◌, ◌*◌, ◌/◌, ◌%◌, ◌^◌, Bool, ◌&&◌, not, Option, none, some, ◌==◌, ltb, leb,
  if◌then◌else◌,
}
use Prim.Native.Nat.{bit_and}
use mathlib.Core.Bool.{true, false}

-- The values of the enum in memory_manager.h that this allocator gives a node.
pub data State : Type 0 where
  free allocated parcial : State

-- `Node`, less its two pointers.
pub record Info : Type 0 where
  pub start : ℕ
  pub size : ℕ
  pub state : State
  pub index : ℕ

pub data Node : Type 0 where
  leaf : Info → Node
  branch : Info → Node → Node → Node

abbrev pub info : Node → Info
info (leaf n) = n
info (branch n l r) = n

abbrev pub u64 : ℕ
u64 = 2 ^ 64

-- `root` and `mem_allocated`.
pub record Manager : Type 0 where
  pub root : Node
  pub mem_allocated : ℕ

-- `init_mm`. The base address only says where the nodes are stored: the blocks are numbered from
-- `mem_ammount` on, as the source does. `mem_allocated` keeps its value.
unfoldable pub init_mm : ℕ → Manager → Manager
init_mm mem_ammount m = record m {
  root = leaf (record { start = mem_ammount; size = mem_ammount; state = free; index = 0 });
}

-- The state that `check_state` gives a node with two children in these states.
abbrev pub combine : State → State → State
combine free free = free
combine allocated allocated = allocated
combine _ _ = parcial

abbrev pub is_allocated : State → Bool
is_allocated allocated = true
is_allocated _ = false

abbrev pub is_free : State → Bool
is_free free = true
is_free _ = false

unfoldable pub check_state : Node → Node
check_state (leaf n) = leaf (record n { state = free })
check_state (branch n l r) = branch (record n { state = combine (info l).state (info r).state }) l r

-- The storage of the nodes from the base address on: the children to which the pointers of the node
-- with an index lead, `none` for NULL. An index has one place, as `node + index` adds up the indices on
-- the way from the root.
abbrev pub Storage : Type 0
Storage = ℕ → Option (Node × Node)

-- A new node, less its pointers, in the storage.
unfoldable pub stored : Storage → Info → Node
stored storage n = elim (storage n.index) [ none ↦ leaf n | some c ↦ branch n c.0 c.1 ]

-- `create_childs` on a node without children.
unfoldable pub create_childs : Storage → Info → Node
unfolding stored
create_childs storage n =
    let half = n.size / 2 in
    branch n
      (stored storage
        (record { start = n.start; size = half; state = free; index = n.index * 2 + 1 }))
      (stored storage
        (record { start = n.start + half; size = half; state = free; index = n.index * 2 + 2 }))

-- The pointer that `malloc_rec` returns, the node after the call, and `mem_allocated`.
abbrev pub Outcome : Type 0
Outcome = ℕ × Node × ℕ

-- What `malloc_rec` does at a node with children, given its two recursive calls.
unfoldable pub malloc_children :
    Info → (left right : Node) → Option Outcome → (ℕ → Option Outcome) → Option Outcome
unfolding check_state
malloc_children n left right none go_right = none
malloc_children n left right (some (p, left', m)) go_right =
    if p == 0
    then elim (go_right m) [
      | none ↦ none
      | some (q, right', m') ↦ some (q, check_state (branch n left' right'), m')
    ]
    else some (p, check_state (branch n left' right), m)

-- What it does after `create_childs`: only the left child is tried.
unfoldable pub malloc_split : Info → (left right : Node) → Option Outcome → Option Outcome
unfolding check_state
malloc_split n left right none = none
malloc_split n left right (some (p, left', m)) = some (p, check_state (branch n left' right), m)

-- `malloc_rec`, on fuel; `none` means that the fuel ran out.
unfoldable pub malloc_rec : Storage → ℕ → Node → (bytes mem_allocated : ℕ) → Option Outcome
unfolding malloc_children malloc_split create_childs
malloc_rec st zero t bytes m = none
malloc_rec st (suc f) (branch n l r) bytes m = elim (is_allocated n.state) [
  | true ↦ some (0, branch n l r, m)
  | false ↦ malloc_children n l r (malloc_rec st f l bytes m) (λ m'. malloc_rec st f r bytes m')
]
malloc_rec st (suc f) (leaf n) bytes m = elim (is_allocated n.state) [
  | true ↦ some (0, leaf n, m)
  | false ↦ elim (ltb n.size bytes) [
    | true ↦ some (0, leaf n, m)
    | false ↦ elim (leb bytes (n.size / 2)) [
      | true ↦ elim (create_childs st n) [
        | leaf n' ↦ none
        | branch n' l r ↦ malloc_split n' l r (malloc_rec st f l bytes m)
      ]
      | false ↦ some (n.start, leaf (record n { state = allocated }), (m + bytes) % u64)
    ]
  ]
]

-- `IS_POWER_OF_TWO`
unfoldable pub is_power_of_two : ℕ → Bool
is_power_of_two x = not (x == 0) && (bit_and x (x - 1) == 0)

-- `while (i < bytes) i = i * 2;` on fuel.
unfoldable pub double_up : ℕ → (i bytes : ℕ) → Option ℕ
double_up zero i bytes = none
double_up (suc f) i bytes = elim (ltb i bytes) [ true ↦ double_up f (i * 2) bytes | false ↦ some i ]

-- The size that `malloc` asks `malloc_rec` for. Theirs is an `int`, so
-- the model is of requests up to 2 ^ 30, for which 32 rounds are enough.
unfoldable pub rounded : ℕ → Option ℕ
unfolding is_power_of_two double_up
rounded bytes = if is_power_of_two bytes then some bytes else double_up 32 1 bytes

-- `malloc`: the pointer (0 is NULL) and the manager after the call.
unfoldable pub malloc : Storage → ℕ → Manager → Option (ℕ × Manager)
unfolding malloc_rec rounded
malloc st bytes m =
    let size = (info m.root).size in
    if ltb size bytes then some (0, m) else elim (rounded bytes) [
      | none ↦ none
      | some b ↦ elim (malloc_rec st (size + 1) m.root b m.mem_allocated) [
        | none ↦ none
        | some (p, root', used) ↦ some (p, record { root = root'; mem_allocated = used })
      ]
    ]

-- The end of `free_rec` at a node with children: `check_state`, and the merge of free buddies.
unfoldable pub merge : Info → (left right : Node) → Node
merge n l r =
    let s = combine (info l).state (info r).state in
    if is_free s then leaf (record n { state = s }) else branch (record n { state = s }) l r

-- `free_rec`: the node after the call, and `mem_allocated`.
unfoldable pub free_rec : Node → (ptr mem_allocated : ℕ) → Node × ℕ
unfolding merge
free_rec (leaf n) p m =
    if is_allocated n.state && (n.start == p)
    then (leaf (record n { state = free }), (m + u64 - n.size) % u64)
    else (leaf n, m)
free_rec (branch n l r) p m = elim (ltb p (info r).start) [
  | true ↦ let (l', m') = free_rec l p m in (merge n l' r, m')
  | false ↦ let (r', m') = free_rec r p m in (merge n l r', m')
]

unfoldable pub release : ℕ → Manager → Manager
unfolding free_rec
release p m =
    let (root', used) = free_rec m.root p m.mem_allocated in
    record { root = root'; mem_allocated = used }
