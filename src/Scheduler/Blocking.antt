-- ===== src/Scheduler/Blocking.antt =====
-- Kernel/basicScheduler.c: who is blocked, who is revived, and whose parent is the shell.
use boke_os.Base.{ℕ, zero, suc, ◌+◌, Option, none, some, List, [], ◌∷◌, ◌==◌, if◌then◌else◌, update}
use boke_os.Queue.{Node}
use boke_os.Kernel.{
  Status, blocked, ready, running, Kernel, shell_pid, queue_qty, process_at, set_status,
}
use boke_os.Scheduler.Search.{get_pcb_entry}
use boke_os.Scheduler.Priority.{finish_current_tick}

-- What `os_revive_process` does to a status.
abbrev pub revived : Status → Status
revived blocked = ready
revived running = ready
revived st = st

module _ {Mem : Type 0} where
  unfoldable pub os_revive_process : ℕ → Kernel Mem → Kernel Mem
  os_revive_process pid k = elim (get_pcb_entry k pid) [
    | none ↦ k
    | some pcb ↦ set_status k pcb (revived (process_at k pcb).status)
  ]

  -- `os_block_current_process`; `none` is -1.
  unfoldable pub os_block_current_process : Kernel Mem → Option ℕ × Kernel Mem
  os_block_current_process k =
      if k.current_pcb == 0
      then (none, k)
      else (some (process_at k k.current_pcb).pid, set_status k k.current_pcb blocked)

  -- The end of `block_process` for a READY or RUNNING process.
  abbrev pub block_pcb : ℕ → Kernel Mem → Kernel Mem
  block_pcb pcb k =
      let k' = set_status k pcb blocked in
      if pcb == k.current_pcb then finish_current_tick k' else k'

  -- `block_process`; `none` is -1.
  unfoldable pub block_process : ℕ → Kernel Mem → Option ℕ × Kernel Mem
  unfolding finish_current_tick
  block_process pid k = elim (get_pcb_entry k pid) [
    | none ↦ (none, k)
    | some pcb ↦ elim (process_at k pcb).status [
      | ready ↦ (some 1, block_pcb pcb k)
      | running ↦ (some 1, block_pcb pcb k)
      | blocked ↦ (some 2, set_status k pcb ready)
      | _ ↦ (none, k)
    ]
  ]

  -- The body of the loop of `reassign_children_to_shell`.
  unfoldable pub reassign : ℕ → Node → Kernel Mem → Kernel Mem
  reassign old n k =
      let a = (k.pcbs n.item).process in
      if (k.procs a).parent_pid == old
      then record k { procs = update k.procs a (record (k.procs a) { parent_pid = shell_pid }) }
      else k

  unfoldable pub reassign_nodes : ℕ → List Node → Kernel Mem → Kernel Mem
  unfolding reassign
  reassign_nodes old [] k = k
  reassign_nodes old (n ∷ ns) k = reassign_nodes old ns (reassign old n k)

  -- The `for`, with the rounds that are left.
  unfoldable pub reassign_from : ℕ → (rounds i : ℕ) → Kernel Mem → Kernel Mem
  unfolding reassign_nodes
  reassign_from old zero i k = k
  reassign_from old (suc rounds) i k =
      reassign_from old rounds (i + 1) (reassign_nodes old (k.scheduler i).queue.nodes k)

  unfoldable pub reassign_children_to_shell : ℕ → Kernel Mem → Kernel Mem
  unfolding reassign_from
  reassign_children_to_shell old k = reassign_from old queue_qty 0 k
