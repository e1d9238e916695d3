-- ===== src/Userland/Phylo/Meals.antt =====
-- Where Userland/SampleCodeModule/phylo.c lets two neighbours eat.
use boke_os.Base.{ℕ, ◌-◌, ◌<◌, ◌≤◌, ◌≡◌, ◌≢◌, ◌∙◌, ap, true, false, ◌==◌, ltb, arith}
use boke_os.Userland.Phylo.{
  thinking, eating, waiting, eats, Table, take_post, left, right, test, take_forks,
  remove_philosopher,
}
use boke_os.Userland.Phylo.Ring.{left_lem, right_lem, test-eating}

-- Of at least two philosophers, one whose neighbours do not have the state EATING eats at once, and the
-- lock of its semaphore is left free.
take_forks-leftover :
    (i : ℕ) (t : Table)
    → i < t.num_philosophers
    → 2 ≤ t.num_philosophers
    → t.fork_states (left t.num_philosophers i) ≢ eating
    → t.fork_states (right t.num_philosophers i) ≢ eating
    → ((take_forks i t).phases i ≡ eats)
      × ((take_forks i t).fork_states i ≡ eating)
      × ((take_forks i t).fork_locks i ≡ 0)
unfolding take_forks test
take_forks-leftover i t h two l r =
    let other_left : (left t.num_philosophers i == i) ≡ false =
      ground (arith, left_lem t.num_philosophers i h) in
    let other_right : (right t.num_philosophers i == i) ≡ false =
      ground (arith, right_lem t.num_philosophers i h) in
    ground (arith, l, r, other_left, other_right)

take_forks-waiting :
    (i : ℕ) (t : Table)
    → i < t.num_philosophers
    → 2 ≤ t.num_philosophers
    → t.fork_states (right t.num_philosophers i) ≡ eating
    → ((take_forks i t).num_philosophers ≡ t.num_philosophers)
      × ((take_forks i t).phases i ≡ waiting)
      × ((take_forks i t).fork_locks i ≡ t.fork_locks i)
      × ((take_forks i t).fork_states (right t.num_philosophers i) ≡ eating)
unfolding take_forks test
take_forks-waiting i t h two e =
    let other_right : (right t.num_philosophers i == i) ≡ false =
      ground (arith, right_lem t.num_philosophers i h) in
    ground (arith, e, other_right)

-- Of at least two philosophers, one whose right neighbour has the state EATING, and whose lock is free,
-- gets through the wait of `take_forks`, and eats while the neighbour has that state.
take_forks-beside :
    (i : ℕ) (t : Table)
    → i < t.num_philosophers
    → 2 ≤ t.num_philosophers
    → t.fork_states (right t.num_philosophers i) ≡ eating
    → t.fork_locks i ≡ 0
    → ((take_forks i t).phases i ≡ waiting)
      × ((take_forks i t).fork_locks i ≡ 0)
      × ((take_post i (take_forks i t)).phases i ≡ eats)
      × ((take_post i (take_forks i t)).fork_states (right t.num_philosophers i) ≡ eating)
unfolding take_post
take_forks-beside i t h two e p =
    let (same, asleep, posts, beside) = take_forks-waiting i t h two e in
    (asleep, posts ∙ p, ground arith, beside)

-- Of at least four philosophers, removing the last one, who is thinking between two that are eating, makes
-- these two neighbours.
pub remove_philosopher-clash :
    (t : Table)
    → 4 ≤ t.num_philosophers
    → t.fork_states (t.num_philosophers - 1) ≡ thinking
    → t.fork_states (t.num_philosophers - 2) ≡ eating
    → t.fork_states 0 ≡ eating
    → (let u = remove_philosopher t in
        (right u.num_philosophers (u.num_philosophers - 1) ≡ 0)
        × (u.fork_states (u.num_philosophers - 1) ≡ eating)
        × (u.fork_states 0 ≡ eating))
unfolding remove_philosopher
remove_philosopher-clash t four a b c =
    let n = t.num_philosophers in
    let at_left : left n (n - 1) ≡ n - 2 = omega (arith, left_lem n (n - 1) (omega arith)) in
    let at_right : right n (n - 1) ≡ 0 = omega (arith, right_lem n (n - 1) (omega arith)) in
    let one : test (left n (n - 1)) t ≡ t =
      test-eating (left n (n - 1)) t (ap t.fork_states at_left ∙ b) in
    let two : test (right n (n - 1)) t ≡ t =
      test-eating (right n (n - 1)) t (ap t.fork_states at_right ∙ c) in
    let some_left : ltb 1 n ≡ true = ground arith in
    let around : right (n - 1) (n - 1 - 1) ≡ 0 =
      omega (arith, right_lem (n - 1) (n - 1 - 1) (omega arith)) in
    let same : n - 1 - 1 ≡ n - 2 = omega arith in
    rw (some_left, remove_philosopher)
      (rw (one) (rw two (around, ground (arith, ap t.fork_states same ∙ b), ground (arith, c))))
