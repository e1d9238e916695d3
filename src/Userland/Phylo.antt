-- ===== src/Userland/Phylo.antt =====
-- Userland/SampleCodeModule/phylo.c: the dining philosophers. A block between the wait for and the post
-- of `mutex` is a function, for a run of it between whose lines no other process runs: `mutex` does not
-- see to that.
-- The other semaphores are locks as in Kernel/semaphore.c: 0 is free, a post frees the lock, and a
-- wait that finds it free takes it. The processes' identifiers, the sleeps and what is printed are left
-- out.
pub mod Ring
pub mod Neighbours
pub mod Hungry
pub mod Settled
pub mod Meals
mod Tests
use boke_os.Base.{
  ℕ, zero, suc, ◌+◌, ◌-◌, ◌%◌, ◌<◌, ◌≤◌, ◌≡◌, Bool, not, ◌&&◌, ◌==◌, ltb, if◌then◌else◌, update,
}

abbrev pub thinking : ℕ
thinking = 0

abbrev pub hungry : ℕ
hungry = 1

abbrev pub eating : ℕ
eating = 2

-- Where a philosopher is in its loop.
pub data Phase : Type 0 where
  thinks : Phase
  waiting : Phase
  eats : Phase

-- The globals, with the locks of the semaphores `fork_sem_ids` and `r_w_sem`.
pub record Table : Type 0 where
  pub num_philosophers : ℕ
  pub fork_states : ℕ → ℕ
  pub fork_locks : ℕ → ℕ
  pub r_w_lock : ℕ
  pub phases : ℕ → Phase

unfoldable pub left : (num_philosophers i : ℕ) → ℕ
left n i = (i + n - 1) % n

unfoldable pub right : (num_philosophers i : ℕ) → ℕ
right n i = (i + 1) % n

-- `test`
unfoldable pub test : (philosopher_num : ℕ) → Table → Table
test i t =
    let n = t.num_philosophers in
    if (t.fork_states i == hungry)
      && not (t.fork_states (left n i) == eating)
      && not (t.fork_states (right n i) == eating)
    then record t {
      fork_states = update t.fork_states i eating;
      fork_locks = update t.fork_locks i 0;
    }
    else t

-- `take_forks` up to its post of `mutex`.
unfoldable pub take_forks : (philosopher_num : ℕ) → Table → Table
take_forks i t =
    let t1 : Table =
      test i (record t { fork_states = update t.fork_states i hungry; r_w_lock = 0 }) in
    record t1 { phases = update t1.phases i (if t1.fork_states i == eating then eats else waiting) }

-- The wait for the fork semaphore behind it, when the lock is free.
unfoldable pub take_post : (philosopher_num : ℕ) → Table → Table
take_post i t = record t { fork_locks = update t.fork_locks i 1; phases = update t.phases i eats }

-- `put_forks`
unfoldable pub put_forks : (philosopher_num : ℕ) → Table → Table
put_forks i t =
    let n = t.num_philosophers in
    let t1 : Table = record t { fork_states = update t.fork_states i thinking; r_w_lock = 0 } in
    let t2 : Table = test (right n i) (test (left n i) t1) in
    record t2 { phases = update t2.phases i thinks }

-- `add_philosopher`, whose process is created or not.
unfoldable pub add_philosopher : (created : Bool) → Table → Table
add_philosopher created t =
    let i = t.num_philosophers in
    let t1 : Table = record t { fork_states = update t.fork_states i thinking } in
    if created
    then test i (record t1 { phases = update t.phases i thinks; num_philosophers = i + 1 })
    else t1

-- `remove_philosopher`, behind its sleep, when no other process runs between its lines.
unfoldable pub remove_philosopher : Table → Table
remove_philosopher t =
    let n = t.num_philosophers in
    let i = n - 1 in
    let t1 : Table = test (right n i) (test (left n i) t) in
    if ltb 1 n
    then record t1 { fork_states = update t1.fork_states i thinking; num_philosophers = n - 1 }
    else t
