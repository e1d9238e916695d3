-- ===== src/Scheduler/Priority.antt =====
-- Kernel/basicScheduler.c: the queues of the priorities, the time slices and the change of priority.
use boke_os.Base.{
  ℕ, ◌+◌, ◌-◌, Bool, true, false, ◌&&◌, not, Option, none, some, List, [], ◌∷◌, ◌==◌, ltb, leb,
  if◌then◌else◌, update,
}
use boke_os.Queue
use boke_os.Queue.{Node, Queue}
use boke_os.Kernel.{
  ready, Pcb, Kernel, Allocator, low_priority, high_priority, process_at, set_status, set_ticks,
  set_queue, create_node, release,
}
use boke_os.Scheduler.Search.{get_pcb_entry}

module _ {Mem : Type 0} where
  -- The node of a ring whose process has a pid.
  unfoldable pub find_node : Kernel Mem → ℕ → List Node → Option Node
  find_node k pid [] = none
  find_node k pid (n ∷ ns) =
      let rest = find_node k pid ns in if (process_at k n.item).pid == pid then some n else rest

  -- `ticks_remaining`
  unfoldable pub ticks_remaining : Kernel Mem → Bool × Kernel Mem
  ticks_remaining k =
      let pcb = k.pcbs k.current_pcb in
      if leb (k.scheduler pcb.priority).quantum pcb.ticks
      then (false, k)
      else (true, set_ticks k k.current_pcb (pcb.ticks + 1))

  -- `finish_current_tick`, up to the interrupt that `force_scheduler` raises.
  unfoldable pub finish_current_tick : Kernel Mem → Kernel Mem
  finish_current_tick k =
      set_ticks k k.current_pcb (k.scheduler (k.pcbs k.current_pcb).priority).quantum

  -- `add_pcb_to_scheduler`
  unfoldable pub add_pcb_to_scheduler : Node → (priority : ℕ) → Kernel Mem → Kernel Mem
  add_pcb_to_scheduler n priority k =
      let k' = set_queue k priority (Queue.insert (k.scheduler priority).queue n) in
      record k' { processes_qty = k'.processes_qty + 1 }

module _ (A : Allocator) where
  -- `remove_from_queue_by_pid` on `scheduler[i]->queue`, for its effect. `remove_node` frees the
  -- node.
  unfoldable pub remove_from_queue_by_pid : (i pid : ℕ) → Kernel A.Mem → Kernel A.Mem
  unfolding find_node
  remove_from_queue_by_pid i pid k = elim (find_node k pid (k.scheduler i).queue.nodes) [
    | none ↦ k
    | some n ↦ release A n.addr (set_queue k i (Queue.remove (k.scheduler i).queue n.addr))
  ]

  -- `change_process_priority` once the entry is found. `insert_node` does not fail on a node.
  unfoldable pub move_pcb : (pcb pid priority : ℕ) → Kernel A.Mem → Kernel A.Mem
  unfolding remove_from_queue_by_pid create_node
  move_pcb pcb pid priority k =
      let k₁ = remove_from_queue_by_pid (k.pcbs pcb).priority pid k in
      let k₂ = record k₁ {
        pcbs = update k₁.pcbs pcb (record (k₁.pcbs pcb) { priority = priority });
      } in
      let (node, k₃) = create_node A pcb k₂ in
      elim node [
        | none ↦ k₃
        | some n ↦ set_queue k₃ priority (Queue.insert (k₃.scheduler priority).queue n)
      ]

  unfoldable pub change_process_priority : (pid priority : ℕ) → Kernel A.Mem → Kernel A.Mem
  unfolding move_pcb
  change_process_priority pid priority k = elim (get_pcb_entry k pid) [
    | none ↦ k
    | some pcb ↦ move_pcb pcb pid priority k
  ]

  unfoldable pub stop_current_process : Kernel A.Mem → Kernel A.Mem
  unfolding change_process_priority
  stop_current_process k =
      let pcb = k.pcbs k.current_pcb in
      if leb (k.scheduler pcb.priority).quantum pcb.ticks
      then (if ltb low_priority pcb.priority && leb pcb.priority high_priority
          then change_process_priority (process_at k k.current_pcb).pid (pcb.priority - 1) k
          else k)
      else set_ticks (set_status k k.current_pcb ready) k.current_pcb 0

  -- `add_new_process` on the process at `process`. 8 bytes for each of 23 words is `sizeof(pcb_t)`.
  unfoldable pub add_new_process : ℕ → Kernel A.Mem → Kernel A.Mem
  unfolding create_node add_pcb_to_scheduler
  add_new_process process k =
      let (pcb, m) = A.malloc 184 k.mem in
      let k₁ = record k { mem = m } in
      if pcb == 0
      then k₁
      else (let p = k.procs process in
          let entry : Pcb = record { ticks = 0; priority = high_priority; process = process } in
          let k₂ = record k₁ {
            pcbs = update k₁.pcbs pcb entry;
            foreground_pid =
                if not (p.pid == 1) && (p.foreground == 1) then p.pid else k₁.foreground_pid;
          } in
          let (node, k₃) = create_node A pcb k₂ in
          elim node [ none ↦ release A pcb k₃ | some n ↦ add_pcb_to_scheduler n high_priority k₃ ])
