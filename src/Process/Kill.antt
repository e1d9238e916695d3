-- ===== src/Process/Kill.antt =====
-- Kernel/process.c: the end of a process.
use boke_os.Base.{ℕ, Bool, true, false, ◌||◌, Option, none, some, ◌==◌, if◌then◌else◌}
use boke_os.Queue
use boke_os.Kernel.{
  Kernel, Status, dead, zombie, Allocator, process_at, set_status, create_node, release, shell_pid,
  os_pid,
}
use boke_os.Scheduler.Search.{get_pcb_entry, current_process_id}
use boke_os.Scheduler.Priority.{finish_current_tick}
use boke_os.Scheduler.Blocking.{reassign_children_to_shell}
use boke_os.Semaphore.Spaces.{my_sem_close, clear_sem, same_pid}
use boke_os.Semaphore.Locks.{my_sem_post, my_sem_wait, Wait}

abbrev pub is_status : Status → Status → Bool
is_status dead dead = true
is_status zombie zombie = true
is_status _ _ = false

-- What a call of `waitpid` comes to before it is suspended or returns.
pub data Waitpid : Type 0 where
  -- -1: there is no such process.
  no_process : Waitpid
  -- The pid: the wait on the process's semaphore is over, or was refused, and the process is killed.
  done : (pid : ℕ) → Waitpid
  suspended : Waitpid

module _ (A : Allocator) where
  -- `add_process_to_removal_queue` of basicScheduler.c.
  unfoldable pub add_process_to_removal_queue : (pid : ℕ) → Kernel A.Mem → Kernel A.Mem
  unfolding create_node
  add_process_to_removal_queue pid k =
      let (node, k') = create_node A pid k in
      elim node [
        | none ↦ k'
        | some n ↦ record k' { waiting_for_remove = Queue.insert k'.waiting_for_remove n }
      ]

  -- `if(pid == current_process_id()) finish_current_tick();`, up to the interrupt.
  unfoldable pub end_tick_of : (pid : ℕ) → Kernel A.Mem → Kernel A.Mem
  unfolding current_process_id finish_current_tick
  end_tick_of pid k =
      if same_pid (some pid) (current_process_id k) then finish_current_tick k else k

  -- The status of the parent, if it has an entry.
  unfoldable pub parent_is_dead : Kernel A.Mem → (parent_pid : ℕ) → Bool
  parent_is_dead k parent = elim (get_pcb_entry k parent) [
    | none ↦ true
    | some pcb ↦ is_status (process_at k pcb).status dead
  ]

  -- `kill_process` once the entry is found.
  unfoldable pub kill_pcb : (pcb pid : ℕ) → Kernel A.Mem → Kernel A.Mem
  unfolding reassign_children_to_shell my_sem_post parent_is_dead add_process_to_removal_queue
      my_sem_close end_tick_of
  kill_pcb pcb pid k =
      let k₁ = reassign_children_to_shell pid k in
      let orphan = parent_is_dead k₁ (process_at k₁ pcb).parent_pid in
      let k₂ = (my_sem_post A (process_at k₁ pcb).sem_name k₁).1 in
      let p = process_at k₂ pcb in
      let gone = (p.parent_pid == os_pid) || orphan || is_status p.status zombie in
      end_tick_of pid (
        if gone
        then add_process_to_removal_queue p.pid (set_status k₂ pcb dead)
        else my_sem_close A p.sem_name (set_status k₂ pcb zombie))

  -- `kill_process`: `true` for 0 and `false` for -1, up to that interrupt.
  unfoldable pub kill_process : (pid : ℕ) → Kernel A.Mem → Bool × Kernel A.Mem
  unfolding kill_pcb
  kill_process pid k = elim (get_pcb_entry k pid) [
    | none ↦ (false, k)
    | some pcb ↦
        if (k.pcbs pcb).process == 0 || pid == shell_pid
        then (false, k)
        else (true, kill_pcb pcb pid k)
  ]

  -- `force_kill` once the entry is found.
  unfoldable pub force_kill_pcb : (pcb pid : ℕ) → Kernel A.Mem → Kernel A.Mem
  unfolding reassign_children_to_shell my_sem_post add_process_to_removal_queue end_tick_of
  force_kill_pcb pcb pid k =
      let k₀ = record k {
        foreground_pid =
            if k.foreground_pid == (process_at k pcb).pid then shell_pid else k.foreground_pid;
      } in
      let k₁ = reassign_children_to_shell pid k₀ in
      let k₂ = (my_sem_post A (process_at k₁ pcb).sem_name k₁).1 in
      end_tick_of pid
        (add_process_to_removal_queue (process_at k₂ pcb).pid (set_status k₂ pcb dead))

  -- `force_kill`: `true` for 1 and `false` for -1, up to the interrupt that follows where the process
  -- ends itself.
  unfoldable pub force_kill : (pid : ℕ) → Kernel A.Mem → Bool × Kernel A.Mem
  unfolding force_kill_pcb
  force_kill pid k = elim (get_pcb_entry k pid) [
    | none ↦ (false, k)
    | some pcb ↦
        if (k.pcbs pcb).process == 0 || pid == shell_pid
        then (false, k)
        else (true, force_kill_pcb pcb pid k)
  ]

  -- `kill_foreground_process`
  unfoldable pub kill_foreground_process : Kernel A.Mem → Bool × Kernel A.Mem
  unfolding force_kill
  kill_foreground_process k =
      if k.foreground_pid == shell_pid then (false, k) else force_kill k.foreground_pid k

  -- `free_process`: `none` is a NULL entry, for which it returns -1.
  unfoldable pub free_process : Option ℕ → Kernel A.Mem → Bool × Kernel A.Mem
  unfolding clear_sem
  free_process none k = (false, k)
  free_process (some pcb) k =
      let p = process_at k pcb in
      let k₁ = (clear_sem A p.sem_name k).1 in
      (
        true,
        release A pcb (
            release A (k.pcbs pcb).process (
              release A p.stack_at (
                release A p.stack.base
                  (release A p.heap_at (release A p.heap.base (release A p.name_at k₁)))))),
      )

  -- `waitpid`. A refused wait is not looked at; a suspended one goes on when the process is revived.
  unfoldable pub waitpid : (pid : ℕ) → Kernel A.Mem → Waitpid × Kernel A.Mem
  unfolding my_sem_wait force_kill
  waitpid pid k = elim (get_pcb_entry k pid) [
    | none ↦ (no_process, k)
    | some pcb ↦
        let p = process_at k pcb in
        let (w, k') = my_sem_wait A p.sem_name k in
        elim w [ Wait.suspended ↦ (suspended, k') | _ ↦ (done p.pid, (force_kill p.pid k').1) ]
  ]
