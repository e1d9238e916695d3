-- ===== src/Semaphore/Tests.antt =====
-- The theorems on semaphore.c at small kernels.
use boke_os.Base.{◌≡◌, refl, true, false, none, some, [], ◌∷◌, ◌==◌, if◌then◌else◌, arith}
use boke_os.Kernel.{Kernel, Space, ready, process_at}
use boke_os.Kernel.Example.{Bump, sample, bump, unused, node_of}
use boke_os.Scheduler.Search.{current_process_id, get_pcb_entry, find_pid_from, find_pid}
use boke_os.Semaphore.Spaces.{
  locate_from, locate_sem, available_from, set_space, my_sem_open, my_sem_close, is_allowed,
}
use boke_os.Semaphore.Locks.{refused, suspended, my_sem_wait, wake_up_processes}
use boke_os.Semaphore.Wake.{Waiting, wake_up_processes-half}
use boke_os.Semaphore.Opening.{my_sem_wait-open}
use boke_os.Semaphore.Closing.{my_sem_wait-close}

-- The semaphore "m", on which the processes 4 and 5 may wait, and where 2, 4 and 5 wait.
abbrev mutex : Space
mutex = record unused {
  available = false;
  identifier = b'm' ∷ [];
  waiters = node_of 2 ∷ node_of 4 ∷ node_of 5 ∷ [];
  is_locked = 1;
  queue_size = 3;
  allowed_processes = λ j. if j == 0 then some 4 else if j == 1 then some 5 else none;
  allowed_process_count = 2;
}

abbrev with_mutex : Kernel Bump
with_mutex = set_space 0 mutex sample

entry_2 : get_pcb_entry with_mutex 2 ≡ some 2
unfolding get_pcb_entry find_pid_from find_pid
entry_2 = refl

wake_up_processes-half_example :
    ((process_at (wake_up_processes bump 0 with_mutex) 2).status ≡ ready)
    × Waiting bump 0 (node_of 5 ∷ []) (wake_up_processes bump 0 with_mutex)
wake_up_processes-half_example =
    wake_up_processes-half bump 0 [] (node_of 2) (node_of 4 ∷ node_of 5 ∷ []) with_mutex 2
      (omega arith) (refl, refl) (omega arith) entry_2 refl

my_sem_wait-open_example :
    ((my_sem_open 1 (b'n' ∷ []) with_mutex).0 ≡ some 1)
    × (locate_sem (b'n' ∷ []) (my_sem_open 1 (b'n' ∷ []) with_mutex).1 ≡ some 1)
    × ((my_sem_wait bump (b'n' ∷ []) (my_sem_open 1 (b'n' ∷ []) with_mutex).1).0 ≡ suspended)
my_sem_wait-open_example =
    my_sem_wait-open bump 1 (b'n' ∷ []) with_mutex 1 (omega arith)
      (unfold locate_sem locate_from in refl) (unfold available_from in refl)

-- The process 4 closes the semaphore, and then 5 runs.
abbrev closed : Kernel Bump
closed = record (my_sem_close bump (b'm' ∷ []) with_mutex) { current_pcb = 5 }

closed_spaces : closed.sem_spaces ≡ (my_sem_close bump (b'm' ∷ []) with_mutex).sem_spaces
closed_spaces = refl

my_sem_wait-close_example :
    (is_allowed mutex (some 5) 2 0 ≡ true) × ((my_sem_wait bump (b'm' ∷ []) closed).0 ≡ refused)
unfolding my_sem_close
my_sem_wait-close_example =
    my_sem_wait-close bump (b'm' ∷ []) with_mutex closed 0 5 0 1
      (unfold locate_sem locate_from in refl) refl (omega arith) (omega arith)
      (unfold current_process_id in refl) refl (λ m q. ground arith) closed_spaces
      (unfold current_process_id in refl)
