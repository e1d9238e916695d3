-- ===== src/Semaphore/Closing.antt =====
-- Who may still wait on a semaphore after `my_sem_close` of Kernel/semaphore.c has taken a process out.
use boke_os.Base.{
  ℕ, zero, suc, ◌+◌, ◌-◌, ◌≤◌, ◌<◌, ◌≡◌, refl, ◌∙◌, ap, ◌⊎◌, inl, inr, true, false, Option, none,
  some, List, ◌==◌, update, arith,
}
use boke_os.Kernel.{Kernel, Space, Allocator}
use boke_os.Scheduler.Search.{current_process_id}
use boke_os.Semaphore.Spaces.{
  max_sems, set_space, same_pid, locate_from, locate_sem, disallow, is_allowed, my_sem_close,
}
use boke_os.Semaphore.Locks.{refused, my_sem_wait}
use boke_os.Semaphore.Opening.{same_pid_self}

-- The loop only takes entries away.
disallow-keeps :
    (pid : Option ℕ) (r i : ℕ) (s : Space) (j : ℕ)
    → ((disallow pid r i s).allowed_processes j ≡ s.allowed_processes j)
      ⊎ ((disallow pid r i s).allowed_processes j ≡ none)
unfolding disallow
disallow-keeps pid zero i s j = inl refl
disallow-keeps pid (suc r) i s j = ground (
  arith,
  disallow-keeps pid r (i + 1) s j,
  disallow-keeps pid r (i + 1)
      (record s {
        allowed_processes = update s.allowed_processes i none;
        allowed_process_count = s.allowed_process_count - 1;
      })
      j,
)

disallow-le :
    (pid : Option ℕ) (r i : ℕ) (s : Space)
    → (disallow pid r i s).allowed_process_count ≤ s.allowed_process_count
unfolding disallow
disallow-le pid zero i s = omega arith
disallow-le pid (suc r) i s = ground (
  arith,
  disallow-le pid r (i + 1) s,
  disallow-le pid r (i + 1) (record s {
    allowed_processes = update s.allowed_processes i none;
    allowed_process_count = s.allowed_process_count - 1;
  }),
)

-- With the process among the entries from `i` on, the count falls.
disallow-lt :
    (pid : Option ℕ) (r i j : ℕ) (s : Space)
    → i ≤ j
    → j < i + r
    → j < s.allowed_process_count
    → same_pid (s.allowed_processes j) pid ≡ true
    → (disallow pid r i s).allowed_process_count < s.allowed_process_count
unfolding disallow
disallow-lt pid zero i j s a b c e = absurd (omega arith)
disallow-lt pid (suc r) i j s a b c e = ground (
  arith,
  disallow-lt pid r (i + 1) j s,
  disallow-le pid r (i + 1) (record s {
    allowed_processes = update s.allowed_processes i none;
    allowed_process_count = s.allowed_process_count - 1;
  }),
)

-- From the second entry on the loop never brings the count down to 0.
disallow-pos :
    (pid : Option ℕ) (r i : ℕ) (s : Space)
    → 0 < i
    → 0 < s.allowed_process_count
    → 0 < (disallow pid r i s).allowed_process_count
unfolding disallow
disallow-pos pid zero i s a b = b
disallow-pos pid (suc r) i s a b = ground (
  arith,
  disallow-pos pid r (i + 1) s,
  disallow-pos pid r (i + 1) (record s {
    allowed_processes = update s.allowed_processes i none;
    allowed_process_count = s.allowed_process_count - 1;
  }),
)

-- Of several entries one is left.
disallow-several :
    (pid : Option ℕ) (r : ℕ) (s : Space)
    → 1 < s.allowed_process_count
    → 0 < (disallow pid r 0 s).allowed_process_count
unfolding disallow
disallow-several pid zero s b = omega arith
disallow-several pid (suc r) s b = ground (
  arith,
  disallow-pos pid r 1 s,
  disallow-pos pid r 1 (record s {
    allowed_processes = update s.allowed_processes 0 none;
    allowed_process_count = s.allowed_process_count - 1;
  }),
)

-- The loop writes neither the flag nor the name.
disallow-named :
    (pid : Option ℕ) (r i : ℕ) (s : Space)
    → ((disallow pid r i s).available ≡ s.available)
      × ((disallow pid r i s).identifier ≡ s.identifier)
unfolding disallow
disallow-named pid zero i s = (refl, refl)
disallow-named pid (suc r) i s = ground (
  arith,
  disallow-named pid r (i + 1) s,
  disallow-named pid r (i + 1) (record s {
    allowed_processes = update s.allowed_processes i none;
    allowed_process_count = s.allowed_process_count - 1;
  }),
)

is_allowed-absent :
    (s : Space) (o : Option ℕ) (r i : ℕ)
    → ((j : ℕ) → j < i + r → same_pid (s.allowed_processes j) o ≡ false)
    → is_allowed s o r i ≡ false
unfolding is_allowed
is_allowed-absent s o zero i h = refl
is_allowed-absent s o (suc r) i h =
    rw (h i (omega arith)) (is_allowed-absent s o r (i + 1) (λ j q. h j (omega arith)))

same_pid-left :
    (a b : Option ℕ) (o : ℕ)
    → (b ≡ a) ⊎ (b ≡ none)
    → same_pid a (some o) ≡ false
    → same_pid b (some o) ≡ false
same_pid-left a b o e h = elim e [ inl q ↦ rw q h | inr q ↦ rw q refl ]

-- Only the last entry was the process `b`, and it is past the new count.
disallow-last :
    (pid : Option ℕ) (s : Space) (b j n : ℕ)
    → s.allowed_process_count ≡ suc n
    → j < suc n
    → same_pid (s.allowed_processes j) pid ≡ true
    → ((i : ℕ) → i < n → same_pid (s.allowed_processes i) (some b) ≡ false)
    → let s' = disallow pid s.allowed_process_count 0 s in
      is_allowed s' (some b) s'.allowed_process_count 0 ≡ false
disallow-last pid s b j n count low at only =
    let s' = disallow pid s.allowed_process_count 0 s in
    let fewer : s'.allowed_process_count < s.allowed_process_count =
      disallow-lt pid s.allowed_process_count 0 j s (omega arith) (omega arith) (omega arith) at in
    is_allowed-absent s' (some b) s'.allowed_process_count 0 (λ i q.
      same_pid-left (s.allowed_processes i) (s'.allowed_processes i) b
        (disallow-keeps pid s.allowed_process_count 0 s i) (only i (omega arith)))

-- An entry among the first `r` from `i` on is found.
is_allowed-entry :
    (s : Space) (o : Option ℕ) (r i j : ℕ)
    → i ≤ j
    → j < i + r
    → same_pid (s.allowed_processes j) o ≡ true
    → is_allowed s o r i ≡ true
unfolding is_allowed
is_allowed-entry s o zero i j a b e = absurd (omega arith)
is_allowed-entry s o (suc r) i j a b e = ground (arith, is_allowed-entry s o r (i + 1) j)

-- A semaphore that keeps its flag and its name is found where it was.
locate_from-kept :
    (spaces : ℕ → Space) (id : List ℕ) (s : Space) (r i a : ℕ)
    → s.available ≡ (spaces a).available
    → s.identifier ≡ (spaces a).identifier
    → locate_from spaces id r i ≡ some a
    → locate_from (update spaces a s) id r i ≡ some a
unfolding locate_from
locate_from-kept spaces id s zero i a flag name at = at
locate_from-kept spaces id s (suc r) i a flag name at =
    ground (arith, locate_from-kept spaces id s r (i + 1) a flag name)

not_zero : (n : ℕ) → 0 < n → (n == 0) ≡ false
not_zero n h = ground arith

my_sem_close_several :
    (A : Allocator) (id : List ℕ) (k : Kernel A.Mem) (i : ℕ)
    → locate_sem id k ≡ some i
    → 1 < (k.sem_spaces i).allowed_process_count
    → my_sem_close A id k
      ≡ set_space i
          (disallow
            (current_process_id k)
            (k.sem_spaces i).allowed_process_count
            0
            (k.sem_spaces i))
          k
unfolding my_sem_close
my_sem_close_several A id k i at several =
    let pos =
      disallow-several (current_process_id k) (k.sem_spaces i).allowed_process_count
        (k.sem_spaces i) several in
    rw (at, my_sem_close) (rw (not_zero _ pos) refl)

my_sem_wait_refused :
    (A : Allocator) (id : List ℕ) (k : Kernel A.Mem) (i : ℕ)
    → locate_sem id k ≡ some i
    → is_allowed (k.sem_spaces i) (current_process_id k) (k.sem_spaces i).allowed_process_count 0
      ≡ false
    → (my_sem_wait A id k).0 ≡ refused
unfolding my_sem_wait
my_sem_wait_refused A id k i at absent = rw (at, my_sem_wait) (rw absent refl)

module _ (A : Allocator) (id : List ℕ) (k after : Kernel A.Mem) (i b j n : ℕ) where
  -- Of several processes that may wait on a semaphore, one closes it. The process `b`, whose only
  -- entry is the last one, could wait on it before, and is refused from then on.
  pub my_sem_wait-close :
      locate_sem id k ≡ some i
      → (k.sem_spaces i).allowed_process_count ≡ suc n
      → 0 < n
      → j < suc n
      → same_pid ((k.sem_spaces i).allowed_processes j) (current_process_id k) ≡ true
      → (k.sem_spaces i).allowed_processes n ≡ some b
      → ((m : ℕ) → m < n → same_pid ((k.sem_spaces i).allowed_processes m) (some b) ≡ false)
      → after.sem_spaces ≡ (my_sem_close A id k).sem_spaces
      → current_process_id after ≡ some b
      → (is_allowed (k.sem_spaces i) (some b) (k.sem_spaces i).allowed_process_count 0 ≡ true)
        × ((my_sem_wait A id after).0 ≡ refused)
  my_sem_wait-close at count several low closer last only later current = (
    is_allowed-entry s (some b) s.allowed_process_count 0 n (omega arith) (omega arith)
        (rw last (same_pid_self (some b))),
    my_sem_wait_refused A id after i found shut,
  )
    where
      s : Space
      s = k.sem_spaces i

      left : Space
      left = disallow (current_process_id k) s.allowed_process_count 0 s

      spaces : after.sem_spaces ≡ update k.sem_spaces i left
      spaces = later ∙ ap (λ q. q.sem_spaces) (my_sem_close_several A id k i at (omega arith))

      found : locate_sem id after ≡ some i
      found =
          unfold locate_sem in
          rw spaces (
            locate_from-kept k.sem_spaces id left max_sems 0 i (disallow-named _ _ 0 s).0
              (disallow-named _ _ 0 s).1 at)

      at_left : after.sem_spaces i ≡ left
      at_left = ap (λ f. f i) spaces ∙ ground arith

      shut :
          is_allowed
            (after.sem_spaces i)
            (current_process_id after)
            (after.sem_spaces i).allowed_process_count
            0
          ≡ false
      shut =
          rw (at_left, current) (disallow-last (current_process_id k) s b j n count low closer only)
