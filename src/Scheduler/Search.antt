-- ===== src/Scheduler/Search.antt =====
-- Kernel/basicScheduler.c: the searches for the next process and for the entry of a pid.
use boke_os.Base.{
  ℕ, zero, suc, ◌+◌, Bool, true, false, Option, none, some, List, [], ◌∷◌, ◌==◌, if◌then◌else◌,
}
use boke_os.Base.Run.{Run, ok, fault, out_of_fuel, ◌>>=◌}
use boke_os.Queue
use boke_os.Queue.{Node, Queue}
use boke_os.Kernel.{
  Status, ready, running, zombie, Kernel, high_priority, queue_qty, process_at, set_status,
  set_queue,
}

-- What the walk over one ring of `find_next_process` comes to.
pub data Scan : Type 0 where
  -- The pcb and the node that holds it.
  found : (pcb node : ℕ) → Scan
  -- The end of the ring, and `keep_running`.
  ended : (keep_running : Option ℕ) → Scan
  -- The walk has not ended within the fuel.
  endless : Scan

abbrev pub is_running : Status → Bool
is_running running = true
is_running _ = false

module _ {Mem : Type 0} where
  -- The `while` of `find_next_process`, on fuel. The ring is `first ∷ others`; the walk stands at
  -- `node`, with `more` between it and the start of the ring. After a ZOMBIE the loop goes on
  -- without looking whether the ring has come to its start.
  unfoldable pub scan :
      Kernel Mem
      → ℕ
      → (first : Node) → (others : List Node) → (node : Node) → (more : List Node) → Option ℕ
      → Scan
  scan k zero first others node more keep = endless
  scan k (suc f) first others node [] keep = elim (process_at k node.item).status [
    | zombie ↦ scan k f first others first others keep
    | ready ↦ found node.item node.addr
    | running ↦ ended (some node.item)
    | _ ↦ ended keep
  ]
  scan k (suc f) first others node (n ∷ ns) keep = elim (process_at k node.item).status [
    | ready ↦ found node.item node.addr
    | running ↦ scan k f first others n ns (some node.item)
    | _ ↦ scan k f first others n ns keep
  ]

  unfoldable pub scan_queue : Kernel Mem → ℕ → List Node → Option ℕ → Scan
  unfolding scan
  scan_queue k fuel [] keep = ended keep
  scan_queue k fuel (n ∷ ns) keep = scan k fuel n ns n ns keep

  -- `scheduler[i]->queue->current_node = node->next`, and the READY process becomes RUNNING.
  unfoldable pub take : Kernel Mem → (i pcb node : ℕ) → Kernel Mem
  take k i pcb node =
      let k' = set_status k pcb running in
      let q = (k.scheduler i).queue in
      set_queue k' i (record q { nodes = Queue.turn_past node [] q.nodes })

  -- `get_idle_pcb`: reads through `current_node`, NULL if the queue is empty.
  unfoldable pub get_idle_pcb : Kernel Mem → Run ℕ
  get_idle_pcb k = elim (k.scheduler 0).queue.nodes [ [] ↦ fault | n ∷ ns ↦ ok n.item ]

  -- The `for` of `find_next_process`, from priority `i` down to `low_priority`.
  unfoldable pub find_from : Kernel Mem → (fuel i : ℕ) → Option ℕ → Run (ℕ × Kernel Mem)
  unfolding scan_queue take get_idle_pcb
  find_from k fuel zero (some pcb) = ok (pcb, k)
  find_from k fuel zero none = get_idle_pcb k >>= λ pcb. ok (pcb, k)
  find_from k fuel (suc i) keep = elim (scan_queue k fuel (k.scheduler (suc i)).queue.nodes keep) [
    | found pcb node ↦ ok (pcb, take k (suc i) pcb node)
    | ended keep' ↦ find_from k fuel i keep'
    | endless ↦ out_of_fuel
  ]

  unfoldable pub find_next_process : ℕ → Kernel Mem → Run (ℕ × Kernel Mem)
  unfolding find_from
  find_next_process fuel k = find_from k fuel high_priority none

  -- The walk of `get_pcb_entry` over one ring.
  unfoldable pub find_pid : Kernel Mem → ℕ → List Node → Option ℕ
  find_pid k pid [] = none
  find_pid k pid (n ∷ ns) =
      let rest = find_pid k pid ns in if (process_at k n.item).pid == pid then some n.item else rest

  -- The `for` of `get_pcb_entry`, with the rounds that are left.
  unfoldable pub find_pid_from : Kernel Mem → ℕ → (rounds i : ℕ) → Option ℕ
  unfolding find_pid
  find_pid_from k pid zero i = none
  find_pid_from k pid (suc rounds) i = elim (find_pid k pid (k.scheduler i).queue.nodes) [
    | some pcb ↦ some pcb
    | none ↦ find_pid_from k pid rounds (i + 1)
  ]

  -- `get_pcb_entry`; `none` is NULL.
  unfoldable pub get_pcb_entry : Kernel Mem → ℕ → Option ℕ
  unfolding find_pid_from
  get_pcb_entry k pid = find_pid_from k pid queue_qty 0

  -- `current_process_id`; `none` is -1.
  unfoldable pub current_process_id : Kernel Mem → Option ℕ
  current_process_id k = if k.current_pcb == 0 then none else some (process_at k k.current_pcb).pid
