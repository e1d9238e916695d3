-- ===== src/Scheduler/Start.antt =====
-- Kernel/basicScheduler.c: how the scheduler comes up.
use boke_os.Base.{ℕ, zero, suc, ◌+◌, Bool, true, false, none, some, ◌==◌, if◌then◌else◌, update}
use boke_os.Base.Run.{Run, ok, fault}
use boke_os.Queue.{empty}
use boke_os.Kernel.{Kernel, Allocator, running, process_at, set_status, release, queue_qty}
use boke_os.Scheduler.Search.{get_pcb_entry}

-- `enable_multitasking`: the stack pointer that `force_context_switch` goes on with. The entry is read
-- through without a look.
unfoldable pub enable_multitasking : {Mem : Type 0} → ℕ → Kernel Mem → Run (ℕ × Kernel Mem)
enable_multitasking pid k = elim (get_pcb_entry k pid) [
  | none ↦ fault
  | some pcb ↦
      let k' = set_status (record k { current_pcb = pcb; scheduler_status = true }) pcb running in
      ok ((process_at k' pcb).stack.current, k')
]

module _ (A : Allocator) where
  -- `create_queue_array` with `create_queue`: two blocks of 16 bytes. `false` is NULL.
  unfoldable pub create_queue_array : Kernel A.Mem → Bool × Kernel A.Mem
  create_queue_array k =
      let (a, m) = A.malloc 16 k.mem in
      if a == 0
      then (false, record k { mem = m })
      else (let (b, m') = A.malloc 16 m in
          if b == 0
          then (false, release A a (record k { mem = m' }))
          else (true, record k { mem = m' }))

  -- The two queues at the end of `init_scheduler`.
  unfoldable pub create_lists : Kernel A.Mem → Kernel A.Mem
  create_lists k =
      let (a, m) = A.malloc 16 k.mem in
      if a == 0
      then record k { mem = m }
      else (let (b, m') = A.malloc 16 m in
          let k' = record k { mem = m'; waiting_for_remove = empty } in
          if b == 0 then k' else record k' { creation_queue = empty })

  -- The `for` of `init_scheduler`, with the rounds that are left. The quantum is 1 whatever the
  -- argument.
  unfoldable pub init_from : (rounds i : ℕ) → Kernel A.Mem → Kernel A.Mem
  unfolding create_queue_array create_lists
  init_from zero i k = create_lists k
  init_from (suc r) i k =
      let (made, k₁) = create_queue_array k in
      let k₂ = record k₁ {
        scheduler = update k₁.scheduler i (record { quantum = 1; queue = empty });
      } in
      let rest = init_from r (i + 1) k₂ in if made then rest else k₁

  unfoldable pub init_scheduler : Kernel A.Mem → Kernel A.Mem
  unfolding init_from
  init_scheduler k = init_from queue_qty 0 k
