-- ===== src/Userland/Phylo/Hungry.antt =====
-- Who is HUNGRY in Userland/SampleCodeModule/phylo.c, and why.
use boke_os.Base.{ℕ, ◌<◌, ◌≡◌, ◌≢◌, sym, ◌⊎◌, inl, inr, Bool-cases, ◌==◌, update, arith}
use mathlib.Core.Path.{subst}
use boke_os.Userland.Phylo.{
  thinking, hungry, eating, Table, left, right, test, take_forks, put_forks,
}
use boke_os.Userland.Phylo.Ring.{
  left-right, put_forks-same, right-left, take_forks-same, test-same, test_cases,
}

-- Who is HUNGRY has a neighbour with the state EATING.
abbrev pub Waits : (num_philosophers : ℕ) → (fork_states : ℕ → ℕ) → (i : ℕ) → Type 0
Waits n f i = f i ≡ hungry → (f (left n i) ≡ eating) ⊎ (f (right n i) ≡ eating)

abbrev pub HungryWait : Table → Type 0
HungryWait t = (i : ℕ) → i < t.num_philosophers → Waits t.num_philosophers t.fork_states i

-- `test` of `a` settles `a`, and leaves the others settled.
test-Waits :
    (a j : ℕ) (t : Table)
    → (j ≡ a) ⊎ Waits t.num_philosophers t.fork_states j
    → Waits t.num_philosophers (test a t).fork_states j
test-Waits a j t h = elim (test_cases a t) [
  | inl (same, why) ↦
      rw same (elim h [ inl e ↦ λ asks. grind (arith, why, e, asks) | inr settled ↦ settled ])
  | inr (forks, _, _, l, r) ↦ rw forks (λ asks. elim h [
    | inl e ↦ ground (arith, e, asks)
    | inr settled ↦ ground (arith, settled, asks)
  ])
]

-- Putting the forks down unsettles the two neighbours at most.
put-Waits :
    (n i j : ℕ) (f : ℕ → ℕ)
    → i < n
    → j < n
    → Waits n f j
    → (j ≡ left n i) ⊎ (j ≡ right n i) ⊎ Waits n (update f i thinking) j
put-Waits n i j f h k settled = elim (Bool-cases (left n j == i)) [
  | inl at_left ↦ inr (inl (ground (arith, right-left n i j h k (ground arith))))
  | inr not_left ↦ elim (Bool-cases (right n j == i)) [
    | inl at_right ↦ inl (ground (arith, left-right n i j h k (ground arith)))
    | inr not_right ↦ inr (inr (λ asks. ground (arith, settled, not_left, not_right, asks)))
  ]
]

test-Waits₂ :
    (a b j : ℕ) (t : Table)
    → (j ≡ a) ⊎ (j ≡ b) ⊎ Waits t.num_philosophers t.fork_states j
    → Waits t.num_philosophers (test b (test a t)).fork_states j
test-Waits₂ a b j t h =
    let first : (j ≡ b) ⊎ Waits t.num_philosophers (test a t).fork_states j = elim h [
      | inl e ↦ inr (test-Waits a j t (inl e))
      | inr (inl e) ↦ inl e
      | inr (inr settled) ↦ inr (test-Waits a j t (inr settled))
    ] in
    let f = (test a t).fork_states in
    let second = subst (λ m. (j ≡ b) ⊎ Waits m f j) (sym (test-same a t)) first in
    subst (λ m. Waits m (test b (test a t)).fork_states j) (test-same a t)
      (test-Waits b j (test a t) second)

put_forks-Waits :
    (i j : ℕ) (t : Table)
    → i < t.num_philosophers
    → j < t.num_philosophers
    → Waits t.num_philosophers t.fork_states j
    → Waits t.num_philosophers (put_forks i t).fork_states j
unfolding put_forks
put_forks-Waits i j t h k settled =
    let n = t.num_philosophers in
    test-Waits₂ (left n i) (right n i) j
      (record t { fork_states = update t.fork_states i thinking; r_w_lock = 0 })
      (put-Waits n i j t.fork_states h k settled)

-- Getting hungry unsettles no one but oneself, if one was not EATING.
take_forks-Waits :
    (i j : ℕ) (t : Table)
    → t.fork_states i ≢ eating
    → Waits t.num_philosophers t.fork_states j
    → Waits t.num_philosophers (take_forks i t).fork_states j
unfolding take_forks
take_forks-Waits i j t h settled =
    let asked : (j ≡ i) ⊎ Waits t.num_philosophers (update t.fork_states i hungry) j =
      elim (Bool-cases (j == i)) [
        | inl same ↦ inl (ground arith)
        | inr other ↦ inr (λ asks. ground (arith, settled, other, asks))
      ] in
    test-Waits i j (record t { fork_states = update t.fork_states i hungry; r_w_lock = 0 }) asked

-- When whoever is HUNGRY has a neighbour with the state EATING, this also holds behind `put_forks`.
pub put_forks-HungryWait :
    (i : ℕ) (t : Table) → i < t.num_philosophers → HungryWait t → HungryWait (put_forks i t)
put_forks-HungryWait i t h inv =
    subst (λ m. (j : ℕ) → j < m → Waits m (put_forks i t).fork_states j) (sym (put_forks-same i t))
      (λ j k. put_forks-Waits i j t h k (inv j k))

-- When whoever is HUNGRY has a neighbour with the state EATING, this also holds behind `take_forks` of a
-- philosopher that does not have the state EATING.
pub take_forks-HungryWait :
    (i : ℕ) (t : Table) → t.fork_states i ≢ eating → HungryWait t → HungryWait (take_forks i t)
take_forks-HungryWait i t other inv =
    subst (λ m. (j : ℕ) → j < m → Waits m (take_forks i t).fork_states j)
      (sym (take_forks-same i t)) (λ j k. take_forks-Waits i j t other (inv j k))
