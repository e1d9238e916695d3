-- ===== src/Semaphore/Locks.antt =====
-- Kernel/semaphore.c: waiting on a semaphore and posting to it. `enter_region` and `leave_region` of
-- Kernel/asm/semaphores.asm exchange the lock word.
use boke_os.Base.{
  ℕ, zero, suc, ◌+◌, ◌-◌, Bool, true, false, Option, none, some, List, [], ◌∷◌, ◌++◌, ◌==◌, ltb,
  leb, if◌then◌else◌,
}
use boke_os.Queue.{Node}
use boke_os.Kernel.{Kernel, Space, Allocator, create_node, release}
use boke_os.Scheduler.Search.{current_process_id}
use boke_os.Scheduler.Priority.{finish_current_tick}
use boke_os.Scheduler.Blocking.{os_revive_process, os_block_current_process}
use boke_os.Semaphore.Spaces.{max_sems, set_space, locate_sem, is_allowed}

-- What a call of `my_sem_wait` comes to before it is suspended or returns.
pub data Wait : Type 0 where
  -- -1: there is no such semaphore, or the process may not wait on it.
  refused : Wait
  -- 0: the lock was free, and is taken.
  acquired : Wait
  -- The lock was taken: the process is in the queue of the semaphore, and runs `enter_region` again
  -- when it is revived.
  suspended : Wait

-- What a popped queue leaves: `head` and `tail` are NULL when `queue_size` is 0.
abbrev pub popped : Space → List Node → Space
popped s rest =
    let n = s.queue_size - 1 in record s { waiters = if n == 0 then [] else rest; queue_size = n }

module _ (A : Allocator) where
  -- `add_to_queue`: `true` for 0 and `false` for -1.
  unfoldable pub add_to_queue : (sem_idx pid : ℕ) → Kernel A.Mem → Bool × Kernel A.Mem
  unfolding create_node
  add_to_queue i pid k =
      if leb max_sems i
      then (false, k)
      else (let (node, k') = create_node A pid k in
          elim node [
            | none ↦ (false, k')
            | some n ↦
                let s = k'.sem_spaces i in
                (
                  true,
                  set_space i
                      (record s { waiters = s.waiters ++ n ∷ []; queue_size = s.queue_size + 1 })
                      k',
                )
          ])

  -- `remove_from_queue`: the pid, `none` for -1.
  unfoldable pub remove_from_queue : (sem_idx : ℕ) → Kernel A.Mem → Option ℕ × Kernel A.Mem
  remove_from_queue i k =
      if leb max_sems i
      then (none, k)
      else (let s = k.sem_spaces i in
          elim s.waiters [
            | [] ↦ (none, k)
            | n ∷ ns ↦ (some n.item, release A n.addr (set_space i (popped s ns) k))
          ])

  -- `os_revive_process` of what `remove_from_queue` gave; no process has the pid -1.
  unfoldable pub revive : Option ℕ → Kernel A.Mem → Kernel A.Mem
  unfolding os_revive_process
  revive none k = k
  revive (some pid) k = os_revive_process pid k

  -- The loop of `wake_up_processes` from `i` on, with the rounds that are left. `queue_size` falls
  -- with each process that is removed, and the loop compares with it.
  unfoldable pub wake_from : (sem_idx rounds i : ℕ) → Kernel A.Mem → Kernel A.Mem
  unfolding remove_from_queue revive
  wake_from sem zero i k = k
  wake_from sem (suc r) i k =
      let rest =
        (let (pid, k') = remove_from_queue sem k in wake_from sem r (i + 1) (revive pid k')) in
      if ltb i (k.sem_spaces sem).queue_size then rest else k

  unfoldable pub wake_up_processes : (sem_idx : ℕ) → Kernel A.Mem → Kernel A.Mem
  unfolding wake_from
  wake_up_processes sem k = wake_from sem (k.sem_spaces sem).queue_size 0 k

  -- `leave_region`: the lock word becomes 0, and waiting processes are woken.
  unfoldable pub leave_region : (sem_idx : ℕ) → Kernel A.Mem → Kernel A.Mem
  unfolding wake_up_processes
  leave_region sem k =
      wake_up_processes sem (set_space sem (record (k.sem_spaces sem) { is_locked = 0 }) k)

  -- `my_sem_post`: `true` for 0 and `false` for 1.
  unfoldable pub my_sem_post : List ℕ → Kernel A.Mem → Bool × Kernel A.Mem
  unfolding leave_region locate_sem
  my_sem_post id k = elim (locate_sem id k) [
    | none ↦ (false, k)
    | some i ↦ (true, leave_region i k)
  ]

  -- `whiff`, up to the interrupt that `finish_current_tick` raises.
  unfoldable pub whiff : (sem_idx : ℕ) → Kernel A.Mem → Kernel A.Mem
  unfolding add_to_queue os_block_current_process finish_current_tick
  whiff sem k = elim (current_process_id k) [
    | none ↦ k
    | some pid ↦ finish_current_tick (os_block_current_process (add_to_queue sem pid k).1).1
  ]

  -- One exchange of `enter_region`: 1 goes into the lock word, and `whiff` follows if it was not 0.
  unfoldable pub enter_region : (sem_idx : ℕ) → Kernel A.Mem → Wait × Kernel A.Mem
  unfolding whiff
  enter_region sem k =
      let s = k.sem_spaces sem in
      let k' = set_space sem (record s { is_locked = 1 }) k in
      if s.is_locked == 0 then (acquired, k') else (suspended, whiff sem k')

  unfoldable pub my_sem_wait : List ℕ → Kernel A.Mem → Wait × Kernel A.Mem
  unfolding enter_region is_allowed locate_sem
  my_sem_wait id k = elim (locate_sem id k) [
    | none ↦ (refused, k)
    | some i ↦
        let s = k.sem_spaces i in
        if is_allowed s (current_process_id k) s.allowed_process_count 0
        then enter_region i k
        else (refused, k)
  ]
