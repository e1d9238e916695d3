-- ===== src/Userland/Phylo/Ring.antt =====
-- The ring of Userland/SampleCodeModule/phylo.c, and the branches of `test`.
use boke_os.Base.{
  ℕ, zero, suc, ◌+◌, ◌-◌, ◌%◌, ◌<◌, ◌≡◌, ◌≢◌, ◌∙◌, ap, sym, refl, ◌⊎◌, inl, inr, Bool, Bool-cases,
  not, ◌&&◌, ◌==◌, ltb, update, arith,
}
use native.Mathlib.Nat.{mod-eq_of_lt, mod-eq-sub-mod, mod_self}
use boke_os.Userland.Phylo.{hungry, eating, Table, left, right, test, take_forks, put_forks}

pub right_lem :
    (n i : ℕ) → i < n → ((suc i ≡ n) × (right n i ≡ 0)) ⊎ ((suc i < n) × (right n i ≡ suc i))
unfolding right
right_lem n i h = elim (Bool-cases (ltb (i + 1) n)) [
  | inl inside ↦ inr (ground arith, mod-eq_of_lt (ground arith) ∙ omega arith)
  | inr last ↦
      let size : n ≡ suc i = ground arith in inl (sym size, ground (arith, size, mod_self (i + 1)))
]

pub left_lem :
    (n i : ℕ) → i < n → ((i ≡ 0) × (suc (left n i) ≡ n)) ⊎ ((0 < i) × (suc (left n i) ≡ i))
unfolding left
left_lem n zero h = inl (refl, ap suc (mod-eq_of_lt (omega arith)) ∙ omega arith)
left_lem n (suc i) h =
    let around : suc i + n - 1 ≡ i + n = omega arith in
    inr (
      omega arith,
      ap suc (
          ap (λ x. x % n) around
          ∙ mod-eq-sub-mod (omega arith)
          ∙ ap (λ x. x % n) (omega arith)
          ∙ mod-eq_of_lt (omega arith)),
    )

pub left-right : (n i j : ℕ) → i < n → j < n → right n j ≡ i → left n i ≡ j
left-right n i j h k e = ground (arith, right_lem n j k, left_lem n i h, e)

-- The condition of `test`.
abbrev pub can_eat : ℕ → Table → Bool
can_eat i t =
    let n = t.num_philosophers in
    (t.fork_states i == hungry)
    && not (t.fork_states (left n i) == eating)
    && not (t.fork_states (right n i) == eating)

-- Both branches of `test`.
pub test_cases :
    (i : ℕ) (t : Table)
    → (let n = t.num_philosophers in
        let f = t.fork_states in
        ((test i t ≡ t) × ((f i ≢ hungry) ⊎ (f (left n i) ≡ eating) ⊎ (f (right n i) ≡ eating)))
        ⊎ (((test i t).fork_states ≡ update f i eating)
            × ((test i t).num_philosophers ≡ n)
            × (f i ≡ hungry)
            × (f (left n i) ≢ eating)
            × (f (right n i) ≢ eating)))
unfolding test
test_cases i t = elim (Bool-cases (can_eat i t)) [
  | inl go ↦ inr (
    rw (go, test) refl,
    rw (go, test) refl,
    ground (arith, go),
    ground (arith, go),
    ground (arith, go),
  )
  | inr stop ↦ inl (rw (stop, test) refl, ground (arith, stop))
]

pub test-same : (i : ℕ) (t : Table) → (test i t).num_philosophers ≡ t.num_philosophers
test-same i t = elim (test_cases i t) [
  | inl (same, _) ↦ ap (λ (u : Table). u.num_philosophers) same
  | inr (_, n, _, _, _) ↦ n
]

pub left-lt : (n i : ℕ) → i < n → left n i < n
left-lt n i h = omega (arith, left_lem n i h)

pub right-lt : (n i : ℕ) → i < n → right n i < n
right-lt n i h = omega (arith, right_lem n i h)

pub right-left : (n i j : ℕ) → i < n → j < n → left n j ≡ i → right n i ≡ j
right-left n i j h k e = ground (arith, right_lem n i h, left_lem n j k, e)

pub put_forks-same : (i : ℕ) (t : Table) → (put_forks i t).num_philosophers ≡ t.num_philosophers
unfolding put_forks
put_forks-same i t =
    test-same (right t.num_philosophers i) _ ∙ test-same (left t.num_philosophers i) _

pub take_forks-same : (i : ℕ) (t : Table) → (take_forks i t).num_philosophers ≡ t.num_philosophers
unfolding take_forks
take_forks-same i t = test-same i _

pub test-eating : (i : ℕ) (t : Table) → t.fork_states i ≡ eating → test i t ≡ t
test-eating i t h = elim (test_cases i t) [
  | inl (same, _) ↦ same
  | inr (_, _, asks, _, _) ↦ absurd (ground (arith, h, asks))
]
