-- ===== src/Queue/Tests.antt =====
-- The rings of circular_list.c at concrete addresses.
use boke_os.Base.{ℕ, ◌∷◌, [], ◌≡◌, refl, arith, some, ◌==◌, if◌then◌else◌, ◌+◌}
use boke_os.Kernel.{Allocator}
use boke_os.Queue.{Node, Queue, insert, remove}
use boke_os.Queue.Pointers.{Heap, QueueCell, insert_node, remove_node}
use boke_os.Queue.Refinement.{Represents, insert_node-insert}
use boke_os.Queue.Removal.{remove_node-remove}

-- An allocator that hands out one address after the other.
abbrev bump : Allocator
bump = record { Mem = ℕ; malloc = λ size m. (m, m + size); free = λ p m. m }

-- Three nodes at 24, 48 and 72 with the items 7, 8 and 9.
abbrev three_heap : Heap ℕ
three_heap = record {
  mem = 96;
  data_of = λ a.
      if a == 24
      then 7
      else if a == 48
      then 8
      else if a == 72
      then 9
      else if a == 96
      then 10
      else 0;
  next_of = λ a. if a == 24 then 48 else if a == 48 then 72 else 24;
  prev_of = λ a. if a == 24 then 72 else if a == 48 then 24 else 48;
}

abbrev three_cell : QueueCell
three_cell = record { current_node = 24; qty = 3 }

abbrev node_at : ℕ → ℕ → Node
node_at a i = record { addr = a; item = i }

abbrev three : Queue
three = record { nodes = node_at 24 7 ∷ node_at 48 8 ∷ node_at 72 9 ∷ []; qty = 3 }

three-Represents : Represents three_heap three_cell three
three-Represents = record {
  current = refl;
  counted = refl;
  number = refl;
  nexts = (refl, (refl, (refl, tt)));
  prevs = (refl, (refl, (refl, tt)));
  items = (refl, (refl, (refl, tt)));
  distinct = (
    ((λ e. absurd (omega arith)), ((λ e. absurd (omega arith)), tt)),
    (((λ e. absurd (omega arith)), tt), (tt, tt)),
  );
  no_null = (
    (λ e. absurd (omega arith)),
    ((λ e. absurd (omega arith)), ((λ e. absurd (omega arith)), tt)),
  );
}

insert_node-insert_example :
    (insert_node three_cell 96 three_heap).0 ≡ some 3
    × Represents
        (insert_node three_cell 96 three_heap).2
        (insert_node three_cell 96 three_heap).1
        (insert three (node_at 96 10))
insert_node-insert_example =
    insert_node-insert three_heap three_cell three (node_at 96 10) (λ e. absurd (omega arith))
      (
        (λ e. absurd (omega arith)),
        ((λ e. absurd (omega arith)), ((λ e. absurd (omega arith)), tt)),
      )
      refl three-Represents

remove_node-remove_example :
    (remove_node bump three_cell 48 three_heap).0 ≡ 8
    × Represents
        (remove_node bump three_cell 48 three_heap).2
        (remove_node bump three_cell 48 three_heap).1
        (remove three 48)
remove_node-remove_example =
    remove_node-remove bump three_heap three_cell (node_at 48 8) (node_at 24 7 ∷ [])
      (node_at 72 9 ∷ []) 3 three-Represents
