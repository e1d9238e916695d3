-- ===== src/Scheduler/Switch.antt =====
-- Kernel/basicScheduler.c: the change of the running process, with the removals and creations that
-- have been put off until then.
use boke_os.Base.{ℕ, none, some, List, [], ◌∷◌, ◌==◌, if◌then◌else◌, update}
use boke_os.Base.Run.{Run, ok, fault, ◌>>=◌}
use boke_os.Queue
use boke_os.Queue.{Node}
use boke_os.Kernel.{Kernel, ready, running, Allocator, process_at, set_status, set_ticks, release}
use boke_os.Scheduler.Search.{get_pcb_entry, find_next_process, is_running}
use boke_os.Scheduler.Priority.{
  remove_from_queue_by_pid, stop_current_process, add_new_process, ticks_remaining,
}
use boke_os.Process.Kill.{free_process}

module _ {Mem : Type 0} where
  -- `process->stack->current = rsp`
  abbrev pub save_stack : (rsp : ℕ) → Kernel Mem → Kernel Mem
  save_stack rsp k =
      let a = (k.pcbs k.current_pcb).process in
      let p = k.procs a in
      record k {
        procs = update k.procs a (record p { stack = record (p.stack) { current = rsp } });
      }

  -- The current process gives way, if it is RUNNING.
  unfoldable pub yield_current : Kernel Mem → Kernel Mem
  yield_current k =
      if is_running (process_at k k.current_pcb).status
      then set_ticks (set_status k k.current_pcb ready) k.current_pcb 0
      else k

module _ (A : Allocator) where
  -- The node that was current has been removed and freed by `remove_node`.
  abbrev pub drop_waiting : Node → Kernel A.Mem → Kernel A.Mem
  drop_waiting n k =
      release A n.addr (record k { waiting_for_remove = Queue.remove k.waiting_for_remove n.addr })

  -- The body of the loop of `kill_processes_in_removal_queue`. The entry is looked up twice, and the
  -- first time it is read through. The second look comes after the removal from the ring.
  unfoldable pub kill_removed : (pid : ℕ) → Kernel A.Mem → Run (Kernel A.Mem)
  unfolding remove_from_queue_by_pid free_process
  kill_removed pid k = elim (get_pcb_entry k pid) [
    | none ↦ fault
    | some pcb ↦
        let k' = remove_from_queue_by_pid A (k.pcbs pcb).priority pid k in
        ok (free_process A (get_pcb_entry k' pid) k').1
  ]

  -- The loop, over the nodes that wait. A pid 0 ends it.
  unfoldable pub kill_nodes : List Node → Kernel A.Mem → Run (Kernel A.Mem)
  unfolding kill_removed
  kill_nodes [] k = ok k
  kill_nodes (n ∷ ns) k =
      if n.item == 0
      then ok (drop_waiting n k)
      else (kill_removed n.item (drop_waiting n k) >>= λ k'. kill_nodes ns k')

  unfoldable pub kill_processes_in_removal_queue : Kernel A.Mem → Run (Kernel A.Mem)
  unfolding kill_nodes
  kill_processes_in_removal_queue k = kill_nodes k.waiting_for_remove.nodes k

  -- `create_processes_in_creation_queue`, over the nodes of the queue. A NULL ends it.
  unfoldable pub create_nodes : List Node → Kernel A.Mem → Kernel A.Mem
  unfolding add_new_process
  create_nodes [] k = k
  create_nodes (n ∷ ns) k =
      let k' =
        release A n.addr (record k { creation_queue = Queue.remove k.creation_queue n.addr }) in
      let rest = create_nodes ns (add_new_process A n.item k') in if n.item == 0 then k' else rest

  unfoldable pub create_processes_in_creation_queue : Kernel A.Mem → Kernel A.Mem
  unfolding create_nodes
  create_processes_in_creation_queue k = create_nodes k.creation_queue.nodes k

  -- `switch_context`: the stack pointer to go on with.
  unfoldable pub switch_context : (fuel rsp : ℕ) → Kernel A.Mem → Run (ℕ × Kernel A.Mem)
  unfolding kill_processes_in_removal_queue create_processes_in_creation_queue stop_current_process
      find_next_process yield_current
  switch_context fuel rsp k = do
    k₁ ← kill_processes_in_removal_queue (save_stack rsp k)
    (new, k₂) ←
        find_next_process fuel (stop_current_process A (create_processes_in_creation_queue k₁))
    ok (
        let k₃ = set_status (record (yield_current k₂) { current_pcb = new }) new running in
        ((process_at k₃ new).stack.current, k₃))

  -- The timer interrupt of Kernel/asm/interrupts.asm, `_irq00Handler`.
  unfoldable pub timer_interrupt : (fuel rsp : ℕ) → Kernel A.Mem → Run (ℕ × Kernel A.Mem)
  unfolding ticks_remaining switch_context
  timer_interrupt fuel rsp k =
      if k.scheduler_status
      then (let (left, k') = ticks_remaining k in
          if left then ok (rsp, k') else switch_context fuel rsp k')
      else ok (rsp, k)
