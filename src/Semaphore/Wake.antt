-- ===== src/Semaphore/Wake.antt =====
-- Whom `wake_up_processes` of Kernel/semaphore.c wakes.
use boke_os.Base.{
  ℕ, zero, suc, ◌+◌, ◌-◌, ◌/◌, ◌≤◌, ◌<◌, ◌≡◌, refl, sym, ◌∙◌, ◌⊎◌, ◌==◌, ◌++◌, inl, inr, true,
  false, Bool-cases, ltb→lt, lt→ltb, Option, none, some, List, [], ◌∷◌, ltb, length, drop, arith,
}
use mathlib.Core.Path.{subst}
use boke_os.Queue.{Node}
use boke_os.Kernel.{Kernel, Space, Allocator, blocked, ready, process_at}
use boke_os.Scheduler.Search.{get_pcb_entry}
use boke_os.Scheduler.Blocking.{os_revive_process}
use boke_os.Semaphore.Spaces.{max_sems}
use boke_os.Semaphore.Locks.{remove_from_queue, revive, wake_from, wake_up_processes}
use boke_os.Semaphore.Frame.{
  Frame, Frame-trans, get_pcb_entry-same, remove_from_queue-Frame, revive-Frame, wake_from-Frame,
}

none_left : (n i : ℕ) → n ≤ i → (n - i + 1) / 2 ≡ 0
none_left n i h = omega arith

no_more : (i n : ℕ) → n ≤ i → ltb i n ≡ false
no_more i n h = ground arith

one_more : (n i : ℕ) → i < suc n → (suc n - i + 1) / 2 ≡ suc ((n - (i + 1) + 1) / 2)
one_more n i h = omega arith

still_below : (n i b : ℕ) → b < (n - i + 1) / 2 → i < n
still_below n i b h = omega arith

goes_on : (q n i b : ℕ) → q ≡ n → b < (n - i + 1) / 2 → ltb i q ≡ true
goes_on q n i b e h = lt→ltb i q (omega (arith, still_below n i b h))

module _ (A : Allocator) where
  -- Reviving a process touches no semaphore.
  sem_spaces-revive : (o : Option ℕ) (k : Kernel A.Mem) → (revive A o k).sem_spaces ≡ k.sem_spaces
  unfolding revive
  sem_spaces-revive none k = refl
  sem_spaces-revive (some pid) k = ground arith

  -- The nodes of a semaphore and their number.
  abbrev pub Waiting : (sem : ℕ) → List Node → Kernel A.Mem → Type 0
  Waiting sem ws k = ((k.sem_spaces sem).waiters ≡ ws) × ((k.sem_spaces sem).queue_size ≡ length ws)

  -- `remove_from_queue` gives the pid that has waited longest.
  pub remove_from_queue-first :
      (sem : ℕ) (w : Node) (ws : List Node) (k : Kernel A.Mem)
      → sem < max_sems
      → Waiting sem (w ∷ ws) k
      → ((remove_from_queue A sem k).0 ≡ some w.item) × Waiting sem ws (remove_from_queue A sem k).1
  unfolding remove_from_queue
  remove_from_queue-first sem w [] k h e = ground arith
  remove_from_queue-first sem w (v ∷ vs) k h e = ground arith

  wake_from-half :
      (r i sem : ℕ) (ws : List Node) (k : Kernel A.Mem)
      → sem < max_sems
      → Waiting sem ws k
      → (length ws - i + 1) / 2 ≤ r
      → Waiting sem (drop ((length ws - i + 1) / 2) ws) (wake_from A sem r i k)
  unfolding wake_from
  wake_from-half zero i sem ws k h e le = rw (none_left (length ws) i (omega arith)) e
  wake_from-half (suc r) i sem [] k h e le =
      rw (no_more i (k.sem_spaces sem).queue_size (omega arith), none_left 0 i (omega arith)) e
  wake_from-half (suc r) i sem (w ∷ ws) k h e le =
      elim (Bool-cases (ltb i (k.sem_spaces sem).queue_size)) [
        | inl more ↦
            let first = remove_from_queue-first sem w ws k h e in
            let k' = (remove_from_queue A sem k).1 in
            let o = (remove_from_queue A sem k).0 in
            let below : i < suc (length ws) = omega (arith, ltb→lt _ _ more) in
            rw (more, one_more (length ws) i below)
              (wake_from-half r (i + 1) sem ws (revive A o k') h
                (subst
                  (λ (f : ℕ → Space). ((f sem).waiters ≡ ws) × ((f sem).queue_size ≡ length ws))
                  (sym (sem_spaces-revive o k')) (first.1))
                (omega (arith, one_more (length ws) i below)))
        | inr over ↦ rw (over, none_left (suc (length ws)) i (ground arith)) e
      ]

  half :
      (sem : ℕ) (ws : List Node) (k : Kernel A.Mem)
      → sem < max_sems
      → Waiting sem ws k
      → Waiting sem (drop ((length ws + 1) / 2) ws) (wake_up_processes A sem k)
  unfolding wake_up_processes
  half sem ws k h e =
      subst (λ n. Waiting sem (drop n ws) (wake_from A sem (k.sem_spaces sem).queue_size 0 k))
        (omega arith) (wake_from-half (k.sem_spaces sem).queue_size 0 sem ws k h e (omega arith))

  abbrev Awaiting : ℕ → Kernel A.Mem → Type 0
  Awaiting pcb k = ((process_at k pcb).status ≡ blocked) ⊎ ((process_at k pcb).status ≡ ready)

  Awaiting-Frame : (pcb : ℕ) (k k' : Kernel A.Mem) → Frame k k' → Awaiting pcb k → Awaiting pcb k'
  Awaiting-Frame pcb k k' f (inl e) = rw (f.entries) (f.wakes (k.pcbs pcb).process e)
  Awaiting-Frame pcb k k' f (inr e) = rw (f.entries) (inr (f.stays (k.pcbs pcb).process e))

  ready_kept :
      (pcb : ℕ) (k k' : Kernel A.Mem)
      → Frame k k'
      → (process_at k pcb).status ≡ ready
      → (process_at k' pcb).status ≡ ready
  ready_kept pcb k k' f e = rw (f.entries) (f.stays (k.pcbs pcb).process e)

  revive-ready :
      (pid pcb : ℕ) (k : Kernel A.Mem)
      → get_pcb_entry k pid ≡ some pcb
      → Awaiting pcb k
      → (process_at (revive A (some pid) k) pcb).status ≡ ready
  unfolding revive os_revive_process
  revive-ready pid pcb k e h =
      let same : ((k.pcbs pcb).process == (k.pcbs pcb).process) ≡ true = ground arith in
      elim h [
        | inl b ↦ rw (e, os_revive_process) (rw (same, b) refl)
        | inr b ↦ rw (e, os_revive_process) (rw (same, b) refl)
      ]

  wake_from-ready :
      (r i sem : ℕ) (before : List Node) (w : Node) (after : List Node) (k : Kernel A.Mem) (pcb : ℕ)
      → sem < max_sems
      → Waiting sem (before ++ w ∷ after) k
      → length before < (length (before ++ w ∷ after) - i + 1) / 2
      → (length (before ++ w ∷ after) - i + 1) / 2 ≤ r
      → get_pcb_entry k w.item ≡ some pcb
      → Awaiting pcb k
      → (process_at (wake_from A sem r i k) pcb).status ≡ ready
  unfolding wake_from
  wake_from-ready zero i sem before w after k pcb h e turn le at st = absurd (omega arith)
  wake_from-ready (suc r) i sem [] w after k pcb h e turn le at st =
      let first = remove_from_queue-first sem w after k h e in
      let k' = (remove_from_queue A sem k).1 in
      let k'' = revive A (remove_from_queue A sem k).0 k' in
      let f = remove_from_queue-Frame A sem k in
      let more : ltb i (k.sem_spaces sem).queue_size ≡ true =
        goes_on (k.sem_spaces sem).queue_size (suc (length after)) i 0 e.1 turn in
      let woken : (process_at k'' pcb).status ≡ ready =
        subst (λ o. (process_at (revive A o k') pcb).status ≡ ready) (sym first.0)
          (revive-ready w.item pcb k' (get_pcb_entry-same k k' w.item f ∙ at)
            (Awaiting-Frame pcb k k' f st)) in
      rw more (
        ready_kept pcb k'' (wake_from A sem r (i + 1) k'') (wake_from-Frame A r (i + 1) sem k'')
          woken)
  wake_from-ready (suc r) i sem (v ∷ before) w after k pcb h e turn le at st =
      let first = remove_from_queue-first sem v (before ++ w ∷ after) k h e in
      let k' = (remove_from_queue A sem k).1 in
      let o = (remove_from_queue A sem k).0 in
      let k'' = revive A o k' in
      let f = Frame-trans k k' k'' (remove_from_queue-Frame A sem k) (revive-Frame A o k') in
      let more : ltb i (k.sem_spaces sem).queue_size ≡ true =
        goes_on (k.sem_spaces sem).queue_size (suc (length (before ++ w ∷ after))) i
          (suc (length before)) e.1 turn in
      let still : Waiting sem (before ++ w ∷ after) k'' =
        subst
          (λ (g : ℕ → Space).
            ((g sem).waiters ≡ before ++ w ∷ after)
            × ((g sem).queue_size ≡ length (before ++ w ∷ after)))
          (sym (sem_spaces-revive o k')) (first.1) in
      let next =
        one_more (length (before ++ w ∷ after)) i
          (still_below (suc (length (before ++ w ∷ after))) i (suc (length before)) turn) in
      rw more (
        wake_from-ready r (i + 1) sem before w after k'' pcb h still (omega (arith, turn, next))
          (omega (arith, le, next)) (get_pcb_entry-same k k'' w.item f ∙ at)
          (Awaiting-Frame pcb k k'' f st))

  -- `wake_up_processes` wakes half of the waiting processes, rounded up: those that have waited
  -- longest. Each of them that has an entry and was BLOCKED is READY then, and the others stay in the
  -- queue, in their order.
  pub wake_up_processes-half :
      (sem : ℕ) (before : List Node) (w : Node) (after : List Node) (k : Kernel A.Mem) (pcb : ℕ)
      → sem < max_sems
      → Waiting sem (before ++ w ∷ after) k
      → length before < (length (before ++ w ∷ after) + 1) / 2
      → get_pcb_entry k w.item ≡ some pcb
      → (process_at k pcb).status ≡ blocked
      → ((process_at (wake_up_processes A sem k) pcb).status ≡ ready)
        × Waiting sem
            (drop ((length (before ++ w ∷ after) + 1) / 2) (before ++ w ∷ after))
            (wake_up_processes A sem k)
  unfolding wake_up_processes
  wake_up_processes-half sem before w after k pcb h e turn at st = (
    wake_from-ready (k.sem_spaces sem).queue_size 0 sem before w after k pcb h e
        (omega (arith, turn)) (omega (arith, e.1)) at (inl st),
    half sem (before ++ w ∷ after) k h e,
  )
