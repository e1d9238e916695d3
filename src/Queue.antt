-- ===== src/Queue.antt =====
-- The queues of Kernel/circular_list.c as their callers see them: the nodes in the order of their
-- `next` pointers, from `current_node` on. `insert_node` puts a node before the current one, which
-- is the end of that order; `remove_node` of the current node makes the next one current.
pub mod Pointers
pub mod Ring
pub mod Refinement
pub mod Removal
pub mod Freeing
mod Tests
use boke_os.Base.{ℕ, ◌+◌, ◌-◌, List, [], ◌∷◌, ◌++◌, ◌==◌, if◌then◌else◌}

-- `node_t`: its address, and `data`.
pub record Node : Type 0 where
  pub addr : ℕ
  pub item : ℕ

-- `queue_t`
pub record Queue : Type 0 where
  pub nodes : List Node
  pub qty : ℕ

abbrev pub empty : Queue
empty = record { nodes = []; qty = 0 }

-- `insert_node` of a node that is not NULL.
abbrev pub insert : Queue → Node → Queue
insert q n = record { nodes = q.nodes ++ n ∷ []; qty = q.qty + 1 }

-- The nodes without the one at an address.
abbrev pub erase : ℕ → List Node → List Node
erase a [] = []
erase a (n ∷ ns) = let rest = erase a ns in if n.addr == a then ns else n ∷ rest

-- `remove_node` of a node of the queue.
abbrev pub remove : Queue → ℕ → Queue
remove q a = record { nodes = erase a q.nodes; qty = q.qty - 1 }

-- The ring turned so that the node behind the one at an address is current.
abbrev pub turn_past : ℕ → List Node → List Node → List Node
turn_past a seen [] = seen
turn_past a seen (n ∷ ns) =
    let rest = turn_past a (seen ++ n ∷ []) ns in if n.addr == a then ns ++ seen ++ n ∷ [] else rest
