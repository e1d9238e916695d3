-- ===== src/Queue/Pointers.antt =====
-- Kernel/circular_list.c on pointers. The fields of `node_t` are functions of a node's address, 0
-- is NULL, and a field that is read after `free` is what it was.
use boke_os.Base.{ℕ, zero, suc, ◌+◌, ◌-◌, ◌||◌, Option, none, some, update, ◌==◌, if◌then◌else◌}
use boke_os.Base.Run.{Run, ok, out_of_fuel, ◌>>=◌}
use boke_os.Kernel.{Allocator}

pub record Heap (Mem : Type 0) : Type 0 where
  pub mem : Mem
  pub data_of : ℕ → ℕ
  pub next_of : ℕ → ℕ
  pub prev_of : ℕ → ℕ

-- `queue_t`
pub record QueueCell : Type 0 where
  pub current_node : ℕ
  pub qty : ℕ

module _ {Mem : Type 0} (h : Heap Mem) where
  -- `p->next = v` and `p->prev = v`
  abbrev pub set_next : ℕ → ℕ → Heap Mem
  set_next p v = record h { next_of = update h.next_of p v }

  abbrev pub set_prev : ℕ → ℕ → Heap Mem
  set_prev p v = record h { prev_of = update h.prev_of p v }

-- `next`
unfoldable pub next : {Mem : Type 0} → Heap Mem → ℕ → ℕ
next h node = if node == 0 then 0 else h.next_of node

-- `insert_node`: -1 is `none`.
unfoldable pub insert_node :
    {Mem : Type 0} → QueueCell → ℕ → Heap Mem → Option ℕ × QueueCell × Heap Mem
insert_node queue new_node h =
    let current = queue.current_node in
    let counted = record queue { qty = queue.qty + 1 } in
    let alone = set_prev (set_next h new_node new_node) new_node new_node in
    let h1 = set_next h new_node current in
    let last_node = h1.prev_of current in
    let h2 = set_prev h1 new_node last_node in
    let h3 = set_next h2 last_node new_node in
    let h4 = set_prev h3 current new_node in
    if new_node == 0
    then (none, queue, h)
    else if current == 0
    then (some queue.qty, record counted { current_node = new_node }, alone)
    else (some queue.qty, counted, h4)

module _ (A : Allocator) where
  abbrev release : ℕ → Heap A.Mem → Heap A.Mem
  release p h = record h { mem = A.free p h.mem }

  -- `create_queue`: 16 bytes for a `queue_t`; `none` is NULL.
  unfoldable pub create_queue : Heap A.Mem → Option (ℕ × QueueCell) × Heap A.Mem
  create_queue h =
      let (queue, m) = A.malloc 16 h.mem in
      let h' = record h { mem = m } in
      if queue == 0 then (none, h') else (some (queue, record { current_node = 0; qty = 0 }), h')

  -- `create_node`: 24 bytes for a `node_t`; 0 is NULL.
  unfoldable pub create_node : ℕ → Heap A.Mem → ℕ × Heap A.Mem
  create_node item h =
      let (new_node, m) = A.malloc 24 h.mem in
      let h' = record h { mem = m } in
      let filled = record h' {
        data_of = update h'.data_of new_node item;
        next_of = update h'.next_of new_node 0;
        prev_of = update h'.prev_of new_node 0;
      } in
      if new_node == 0 then (0, h') else (new_node, filled)

  -- `remove_node`, with what it returns; 0 is NULL. The queue itself is not NULL.
  unfoldable pub remove_node : QueueCell → ℕ → Heap A.Mem → ℕ × QueueCell × Heap A.Mem
  remove_node queue node h =
      let turned =
        if queue.current_node == node
        then record queue { current_node = h.next_of node }
        else queue in
      let counted = record turned { qty = queue.qty - 1 } in
      let prev_node = h.prev_of node in
      let next_node = h.next_of node in
      let h1 = set_next h prev_node next_node in
      let h2 = set_prev h1 next_node prev_node in
      if node == 0 || queue.current_node == 0
      then (0, queue, h)
      else if queue.qty == 1
      then (h.data_of node, record counted { current_node = 0 }, release node h)
      else (h.data_of node, counted, release node h2)

  -- The loop of `free_queue` from `next_node` on, with the rounds that are left.
  unfoldable pub free_nodes : ℕ → ℕ → ℕ → Heap A.Mem → Run (Heap A.Mem)
  free_nodes zero current next_node h = out_of_fuel
  free_nodes (suc rounds) current next_node h =
      let rest = free_nodes rounds current (h.next_of next_node) (release next_node h) in
      if current == next_node then ok h else rest

  -- `free_queue` of the queue at `queue_at`, which is not NULL.
  unfoldable pub free_queue : ℕ → ℕ → QueueCell → Heap A.Mem → Run (Heap A.Mem)
  free_queue rounds queue_at queue h =
      let current = queue.current_node in
      if current == 0
      then ok h
      else (free_nodes rounds current (h.next_of current) h >>= λ h'.
          ok (release queue_at (release current h')))
