-- ===== src/Kernel/Example.antt =====
-- A small kernel for tests: the process with pid `n` and its pcb stand at address `n`. The shell, pid 2,
-- is BLOCKED at priority 3, 4 and 5 are READY at priority 2, and the idle process 3 is READY at
-- priority 0. Its allocator hands out one address after the other from 100 on, and counts what is freed.
use boke_os.Base.{ℕ, ◌+◌, true, false, none, List, [], ◌∷◌, ◌==◌, if◌then◌else◌}
use boke_os.Queue.{Node, empty}
use boke_os.Kernel.{
  Allocator, Kernel, Process, MemBlock, SchedulerQueue, Space, Status, blocked, ready,
}

-- The next address, and the number of blocks that were given back.
pub record Bump : Type 0 where
  pub next : ℕ
  pub freed : ℕ

abbrev pub bump : Allocator
bump = record {
  Mem = Bump;
  malloc = λ size m. (m.next, record m { next = m.next + 1 });
  free = λ p m. record m { freed = m.freed + 1 };
}

abbrev pub block_at : ℕ → MemBlock
block_at a = record { base = a; size = 0x1000; current = a }

abbrev pub process_of : ℕ → Status → Process
process_of pid st = record {
  pid = pid;
  parent_pid = 1;
  status = st;
  name_at = 50;
  name = [];
  foreground = 0;
  stack_at = 51;
  stack = block_at 52;
  heap_at = 53;
  heap = block_at 54;
  sem_name = (48 + pid) ∷ [];
  fr = 0;
  fw = 0;
}

abbrev pub node_of : ℕ → Node
node_of n = record { addr = 10 + n; item = n }

abbrev pub ring_of : List Node → ℕ → SchedulerQueue
ring_of ns n = record { quantum = 1; queue = record { nodes = ns; qty = n } }

abbrev pub unused : Space
unused = record {
  available = true;
  identifier = [];
  waiters = [];
  is_locked = 0;
  counter = 0;
  queue_size = 0;
  allowed_processes = λ _. none;
  allowed_process_count = 0;
  being_cleared = false;
}

-- The kernel where the processes have the given statuses.
abbrev pub kernel_with : (ℕ → Status) → Kernel Bump
kernel_with st = record {
  mem = record { next = 100; freed = 0 };
  procs = λ a. process_of a (st a);
  pcbs = λ a. record {
    ticks = 1;
    priority = if a == 2 then 3 else if a == 3 then 0 else 2;
    process = a;
  };
  scheduler = λ i.
      if i == 3
      then ring_of (node_of 2 ∷ []) 1
      else if i == 2
      then ring_of (node_of 4 ∷ node_of 5 ∷ []) 2
      else if i == 0
      then ring_of (node_of 3 ∷ []) 1
      else ring_of [] 0;
  waiting_for_remove = empty;
  creation_queue = empty;
  current_pcb = 4;
  foreground_pid = 2;
  processes_qty = 4;
  scheduler_status = true;
  pid = 6;
  sem_spaces = λ _. unused;
}

abbrev pub usual : ℕ → Status
usual a = if a == 2 then blocked else ready

abbrev pub sample : Kernel Bump
sample = kernel_with usual
