-- ===== src/Semaphore/Opening.antt =====
-- A semaphore that `my_sem_open` of Kernel/semaphore.c has just made, and the first wait on it.
use boke_os.Base.{
  ℕ, zero, suc, ◌+◌, ◌≡◌, refl, ◌∙◌, true, false, Option, none, some, List, [], ◌∷◌, ◌==◌,
  if◌then◌else◌, update, arith, take, ◌≤◌, ◌<◌, length, ap,
}
use boke_os.Kernel.{Kernel, Space, Allocator}
use boke_os.Scheduler.Search.{current_process_id}
use boke_os.Semaphore.Spaces.{
  max_sems, set_space, same_id, same_pid, locate_from, locate_sem, available_from, fresh_space,
  my_sem_open, is_allowed,
}
use boke_os.Semaphore.Locks.{acquired, suspended, my_sem_wait}

same_id_self : (id : List ℕ) → same_id id id ≡ true
same_id_self [] = refl
same_id_self (c ∷ cs) = ground (arith, same_id_self cs)

take-all : (n : ℕ) (id : List ℕ) → length id ≤ n → take n id ≡ id
take-all zero [] h = refl
take-all zero (c ∷ cs) h = absurd (omega arith)
take-all (suc n) [] h = refl
take-all (suc n) (c ∷ cs) h = ap (λ r. c ∷ r) (take-all n cs (omega arith))

pub same_pid_self : (o : Option ℕ) → same_pid o o ≡ true
same_pid_self none = refl
same_pid_self (some a) = ground arith

-- A name that no semaphore has is found at the space that is filled in for it.
locate_from-fresh :
    (spaces : ℕ → Space) (id : List ℕ) (s : Space) (r i a : ℕ)
    → s.available ≡ false
    → same_id s.identifier id ≡ true
    → locate_from spaces id r i ≡ none
    → available_from spaces r i ≡ some a
    → locate_from (update spaces a s) id r i ≡ some a
unfolding locate_from available_from
locate_from-fresh spaces id s zero i a used named absent at = cc
locate_from-fresh spaces id s (suc r) i a used named absent at =
    ground (arith, locate_from-fresh spaces id s r (i + 1) a used named)

same_current :
    {Mem : Type 0} (i : ℕ) (s : Space) (k : Kernel Mem)
    → current_process_id (set_space i s k) ≡ current_process_id k
unfolding current_process_id
same_current i s k = refl

fresh-is_allowed :
    (s : Space) (start : ℕ) (id : List ℕ) (o : Option ℕ)
    → is_allowed (fresh_space s start id o) o 1 0 ≡ true
unfolding is_allowed
fresh-is_allowed s start id o = rw (same_pid_self o)

-- What a wait does for a process that may wait: the lock word decides.
my_sem_wait_allowed :
    (A : Allocator) (id : List ℕ) (k : Kernel A.Mem) (i : ℕ)
    → locate_sem id k ≡ some i
    → is_allowed (k.sem_spaces i) (current_process_id k) (k.sem_spaces i).allowed_process_count 0
      ≡ true
    → (my_sem_wait A id k).0 ≡ (if (k.sem_spaces i).is_locked == 0 then acquired else suspended)
unfolding my_sem_wait
my_sem_wait_allowed A id k i at allowed = rw (at, my_sem_wait) (rw allowed (ground arith))

module _ (A : Allocator) (start : ℕ) (id : List ℕ) (k : Kernel A.Mem) (i : ℕ) where
  open_fresh :
      locate_sem id k ≡ none
      → available_from k.sem_spaces max_sems 0 ≡ some i
      → my_sem_open start id k
        ≡ (some i, set_space i (fresh_space (k.sem_spaces i) start id (current_process_id k)) k)
  unfolding my_sem_open
  open_fresh absent at = rw (absent, my_sem_open) (rw (at, my_sem_open))

  -- A semaphore of a new name of less than 15 characters takes the first free space and is found there. The
  -- process that opened
  -- it gets its lock at once if it was opened with 0, and is suspended if it was opened with more.
  pub my_sem_wait-open :
      length id < 15
      → locate_sem id k ≡ none
      → available_from k.sem_spaces max_sems 0 ≡ some i
      → ((my_sem_open start id k).0 ≡ some i)
        × (locate_sem id (my_sem_open start id k).1 ≡ some i)
        × ((my_sem_wait A id (my_sem_open start id k).1).0
            ≡ (if start == 0 then acquired else suspended))
  my_sem_wait-open short absent at =
      rw (open_fresh absent at)
        (refl, found, my_sem_wait_allowed A id (set_space i fresh k) i found allowed ∙ locked)
    where
      fresh : Space
      fresh = fresh_space (k.sem_spaces i) start id (current_process_id k)

      at_fresh : (set_space i fresh k).sem_spaces i ≡ fresh
      at_fresh = ground arith

      allowed :
          is_allowed
            ((set_space i fresh k).sem_spaces i)
            (current_process_id (set_space i fresh k))
            ((set_space i fresh k).sem_spaces i).allowed_process_count
            0
          ≡ true
      allowed =
          rw (at_fresh, same_current i fresh k)
            (fresh-is_allowed (k.sem_spaces i) start id (current_process_id k))

      locked :
          (if ((set_space i fresh k).sem_spaces i).is_locked == 0 then acquired else suspended)
          ≡ (if start == 0 then acquired else suspended)
      locked = rw at_fresh (ground arith)

      named : same_id fresh.identifier id ≡ true
      named = rw (take-all 16 id (omega (arith, short))) (same_id_self id)

      found : locate_sem id (set_space i fresh k) ≡ some i
      found =
          unfold locate_sem in
          locate_from-fresh k.sem_spaces id fresh max_sems 0 i refl named absent at
