-- ===== src/Userland/Phylo/Neighbours.antt =====
-- No two neighbours of Userland/SampleCodeModule/phylo.c have the state EATING.
use boke_os.Base.{Bool, true, false, ℕ, ◌+◌, ◌<◌, ◌≡◌, ◌≢◌, sym, inl, inr, update, arith}
use mathlib.Core.Path.{subst}
use boke_os.Userland.Phylo.{
  thinking, hungry, eating, thinks, Table, left, right, test, take_forks, put_forks,
  add_philosopher,
}
use boke_os.Userland.Phylo.Ring.{left-lt, left-right, right-lt, right_lem, test-same, test_cases}

-- No one with the state EATING has another one with it to the right.
abbrev pub NoNeighbours : (num_philosophers : ℕ) → (fork_states : ℕ → ℕ) → Type 0
NoNeighbours n f = (i : ℕ) → i < n → right n i ≢ i → f i ≡ eating → f (right n i) ≢ eating

eat-NoNeighbours :
    (n i : ℕ) (f : ℕ → ℕ)
    → i < n
    → NoNeighbours n f
    → f (left n i) ≢ eating
    → f (right n i) ≢ eating
    → NoNeighbours n (update f i eating)
eat-NoNeighbours n i f h inv l r j k other e = ground (arith, left-right n i j h k, inv j k other)

test-NoNeighbours :
    (i : ℕ) (t : Table)
    → i < t.num_philosophers
    → NoNeighbours t.num_philosophers t.fork_states
    → NoNeighbours t.num_philosophers (test i t).fork_states
test-NoNeighbours i t h inv = elim (test_cases i t) [
  | inl (same, _) ↦ rw same inv
  | inr (forks, _, _, l, r) ↦
      rw forks (eat-NoNeighbours t.num_philosophers i t.fork_states h inv l r)
]

-- A state other than EATING disturbs no one.
rest-NoNeighbours :
    (n i v : ℕ) (f : ℕ → ℕ) → v ≢ eating → NoNeighbours n f → NoNeighbours n (update f i v)
rest-NoNeighbours n i v f h inv j k other e = ground (arith, inv j k other)

pub take_forks-NoNeighbours :
    (i : ℕ) (t : Table)
    → i < t.num_philosophers
    → NoNeighbours t.num_philosophers t.fork_states
    → NoNeighbours t.num_philosophers (take_forks i t).fork_states
unfolding take_forks
take_forks-NoNeighbours i t h inv =
    test-NoNeighbours i (record t { fork_states = update t.fork_states i hungry; r_w_lock = 0 }) h
      (rest-NoNeighbours t.num_philosophers i hungry t.fork_states (λ e. ground (arith, e)) inv)

pub put_forks-NoNeighbours :
    (i : ℕ) (t : Table)
    → i < t.num_philosophers
    → NoNeighbours t.num_philosophers t.fork_states
    → NoNeighbours t.num_philosophers (put_forks i t).fork_states
unfolding put_forks
put_forks-NoNeighbours i t h inv =
    let n = t.num_philosophers in
    let t1 : Table = record t { fork_states = update t.fork_states i thinking; r_w_lock = 0 } in
    let down = rest-NoNeighbours n i thinking t.fork_states (λ e. ground (arith, e)) inv in
    let one = test-NoNeighbours (left n i) t1 (left-lt n i h) down in
    let t2 : Table = test (left n i) t1 in
    subst (λ m. NoNeighbours m (test (right n i) t2).fork_states) (test-same (left n i) t1)
      (test-NoNeighbours (right n i) t2
        (subst (λ m. right n i < m) (sym (test-same (left n i) t1)) (right-lt n i h))
        (subst (λ m. NoNeighbours m t2.fork_states) (sym (test-same (left n i) t1)) one))

grow-NoNeighbours :
    (n : ℕ) (f : ℕ → ℕ) → NoNeighbours n f → NoNeighbours (n + 1) (update f n thinking)
grow-NoNeighbours n f inv j k other e =
    let inside : j < n = ground arith in
    ground (arith, right_lem n j inside, right_lem (n + 1) j k, inv j inside, e)

add_philosopher-NoNeighbours :
    (created : Bool) (t : Table)
    → NoNeighbours t.num_philosophers t.fork_states
    → NoNeighbours
        (add_philosopher created t).num_philosophers
        (add_philosopher created t).fork_states
unfolding add_philosopher
add_philosopher-NoNeighbours true t inv =
    let n = t.num_philosophers in
    let t1 : Table = record t {
      fork_states = update t.fork_states n thinking;
      phases = update t.phases n thinks;
      num_philosophers = n + 1;
    } in
    let seated : NoNeighbours (n + 1) t1.fork_states = grow-NoNeighbours n t.fork_states inv in
    subst (λ m. NoNeighbours m (test n t1).fork_states) (sym (test-same n t1))
      (test-NoNeighbours n t1 (omega arith) seated)
add_philosopher-NoNeighbours false t inv =
    rest-NoNeighbours t.num_philosophers t.num_philosophers thinking t.fork_states
      (λ e. ground (arith, e)) inv
