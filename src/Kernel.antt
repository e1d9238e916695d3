-- ===== src/Kernel.antt =====
-- The state of the kernel: Kernel/include/process.h, scheduler.h and mysemaphore.h, the globals of
-- basicScheduler.c, process.c and semaphore.c, and the allocator behind `malloc` and `free`.
-- Objects are reached by address. A store is a function of the address, so a pointer that is kept
-- after `free` still reads what was there, as in C.
pub mod Example
use boke_os.Base.{ℕ, Bool, Option, some, none, List, update, ◌==◌, if◌then◌else◌}
use boke_os.Queue.{Node, Queue}

-- What the kernel asks of a memory manager. `malloc` gives 0 for NULL.
pub record Allocator : Type 1 where
  pub Mem : Type 0
  pub malloc : ℕ → Mem → ℕ × Mem
  pub free : ℕ → Mem → Mem

-- `status_t`
pub data Status : Type 0 where
  blocked ready running dead zombie : Status

-- `mem_block_t`
pub record MemBlock : Type 0 where
  pub base : ℕ
  pub size : ℕ
  pub current : ℕ

-- `process_t`. The pointers to its name and to its two blocks come beside what they point to.
pub record Process : Type 0 where
  pub pid : ℕ
  pub parent_pid : ℕ
  pub status : Status
  pub name_at : ℕ
  pub name : List ℕ
  pub foreground : ℕ
  pub stack_at : ℕ
  pub stack : MemBlock
  pub heap_at : ℕ
  pub heap : MemBlock
  pub sem_name : List ℕ
  pub fr : ℕ
  pub fw : ℕ

-- `pcb_t`, less the saved registers. `process` is an address.
pub record Pcb : Type 0 where
  pub ticks : ℕ
  pub priority : ℕ
  pub process : ℕ

-- `scheduler_queue`
pub record SchedulerQueue : Type 0 where
  pub quantum : ℕ
  pub queue : Queue

-- `space_t` with its `my_sem_t`. The nodes from `head` to `tail` are a list; an entry -1 of
-- `allowed_processes` is `none`.
pub record Space : Type 0 where
  pub available : Bool
  pub identifier : List ℕ
  pub waiters : List Node
  pub is_locked : ℕ
  pub counter : ℕ
  pub queue_size : ℕ
  pub allowed_processes : ℕ → Option ℕ
  pub allowed_process_count : ℕ
  pub being_cleared : Bool

pub record Kernel (Mem : Type 0) : Type 0 where
  pub mem : Mem
  pub procs : ℕ → Process
  pub pcbs : ℕ → Pcb
  pub scheduler : ℕ → SchedulerQueue
  pub waiting_for_remove : Queue
  pub creation_queue : Queue
  pub current_pcb : ℕ
  pub foreground_pid : ℕ
  pub processes_qty : ℕ
  pub scheduler_status : Bool
  pub pid : ℕ
  pub sem_spaces : ℕ → Space

-- `LOW_PRIORITY`, `HIGH_PRIORITY`, `SHELL_PID` and `OS_PID`
abbrev pub low_priority : ℕ
low_priority = 1

abbrev pub high_priority : ℕ
high_priority = 3

-- `QUEUE_QTY`
abbrev pub queue_qty : ℕ
queue_qty = 4

abbrev pub shell_pid : ℕ
shell_pid = 2

abbrev pub os_pid : ℕ
os_pid = 1

module _ {Mem : Type 0} (k : Kernel Mem) where
  -- `pcb->process`
  abbrev pub process_at : ℕ → Process
  process_at pcb = k.procs (k.pcbs pcb).process

  -- `pcb->process->status = st`
  abbrev pub set_status : ℕ → Status → Kernel Mem
  set_status pcb st =
      let a = (k.pcbs pcb).process in
      record k { procs = update k.procs a (record (k.procs a) { status = st }) }

  -- `pcb->ticks = n`
  abbrev pub set_ticks : ℕ → ℕ → Kernel Mem
  set_ticks pcb n = record k { pcbs = update k.pcbs pcb (record (k.pcbs pcb) { ticks = n }) }

  -- `*scheduler[i]->queue = q`
  abbrev pub set_queue : ℕ → Queue → Kernel Mem
  set_queue i q = record k {
    scheduler = update k.scheduler i (record (k.scheduler i) { queue = q });
  }

-- `create_node`: a node of 24 bytes around `item`; `none` is NULL.
module _ (A : Allocator) where
  unfoldable pub create_node : ℕ → Kernel A.Mem → Option Node × Kernel A.Mem
  create_node item k =
      let (a, m) = A.malloc 24 k.mem in
      let k' = record k { mem = m } in
      if a == 0 then (none, k') else (some (record { addr = a; item = item }), k')

  -- `free(p)`
  abbrev pub release : ℕ → Kernel A.Mem → Kernel A.Mem
  release p k = record k { mem = A.free p k.mem }
