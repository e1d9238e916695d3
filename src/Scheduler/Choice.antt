-- ===== src/Scheduler/Choice.antt =====
-- Which process `find_next_process` of basicScheduler.c chooses, and when it never returns.
use boke_os.Base.{
  ℕ, zero, suc, ◌≤◌, ◌<◌, ◌≡◌, refl, ap, sym, ◌⊎◌, inl, inr, Option, none, some, List, [], ◌∷◌,
  ◌==◌, length, arith, Bool-cases, ==_iff,
}
use boke_os.Base.Run.{ok, fault, out_of_fuel}
use boke_os.Queue.{Node}
use boke_os.Kernel.{Kernel, Status, ready, running, zombie, process_at, high_priority}
use boke_os.Scheduler.Search.{
  found, ended, endless, scan, scan_queue, find_from, find_next_process, take,
}

module _ {Mem : Type 0} (k : Kernel Mem) where
  abbrev pub status_of : Node → Status
  status_of n = (process_at k n.item).status

  -- The first READY node of a ring.
  abbrev pub first_ready : List Node → Option Node
  first_ready [] = none
  first_ready (n ∷ ns) = elim (status_of n) [ ready ↦ some n | _ ↦ first_ready ns ]

  -- The last RUNNING pcb of a ring, or the one of the rings before.
  abbrev pub last_running : List Node → Option ℕ → Option ℕ
  last_running [] keep = keep
  last_running (n ∷ ns) keep =
      last_running ns (elim (status_of n) [ running ↦ some n.item | _ ↦ keep ])

  -- The walk meets the start of the ring right behind a ZOMBIE.
  abbrev pub EndsInZombie : List Node → Type 0
  EndsInZombie [] = ⊥
  EndsInZombie (n ∷ []) = status_of n ≡ zombie
  EndsInZombie (_ ∷ n ∷ ns) = EndsInZombie (n ∷ ns)

  scan-found :
      (f : ℕ) (first : Node) (others : List Node) (n : Node) (more : List Node) (keep : Option ℕ)
      (r : Node)
      → length more < f
      → first_ready (n ∷ more) ≡ some r
      → scan k f first others n more keep ≡ found r.item r.addr
  unfolding scan
  scan-found zero first others n more keep r h e = absurd (omega arith)
  scan-found (suc f) first others n [] keep r h e = ground arith
  scan-found (suc f) first others n (m ∷ ms) keep r h e =
      ground (
        arith,
        scan-found f first others m ms keep r,
        scan-found f first others m ms (some n.item) r,
      )

  scan-ended :
      (f : ℕ) (first : Node) (others : List Node) (n : Node) (more : List Node) (keep : Option ℕ)
      → length more < f
      → first_ready (n ∷ more) ≡ none
      → ¬ EndsInZombie (n ∷ more)
      → scan k f first others n more keep ≡ ended (last_running (n ∷ more) keep)
  unfolding scan
  scan-ended zero first others n more keep h e z = absurd (omega arith)
  scan-ended (suc f) first others n [] keep h e z = ground arith
  scan-ended (suc f) first others n (m ∷ ms) keep h e z =
      ground
        (arith, scan-ended f first others m ms keep, scan-ended f first others m ms (some n.item))

  scan-endless :
      (f : ℕ) (first : Node) (others : List Node) (n : Node) (more : List Node) (keep : Option ℕ)
      → first_ready (first ∷ others) ≡ none
      → EndsInZombie (first ∷ others)
      → first_ready (n ∷ more) ≡ none
      → EndsInZombie (n ∷ more)
      → scan k f first others n more keep ≡ endless
  unfolding scan
  scan-endless zero first others n more keep e z e' z' = refl
  scan-endless (suc f) first others n [] keep e z e' z' =
      ground (arith, scan-endless f first others first others keep e z e z)
  scan-endless (suc f) first others n (m ∷ ms) keep e z e' z' = ground (
    arith,
    scan-endless f first others m ms keep e z,
    scan-endless f first others m ms (some n.item) e z,
  )

  abbrev pub ring : ℕ → List Node
  ring i = (k.scheduler i).queue.nodes

  -- A ring that the search leaves behind: no process is READY, and the walk ends.
  abbrev pub Passed : ℕ → Type 0
  Passed i = (first_ready (ring i) ≡ none) × ¬ EndsInZombie (ring i)

  -- A ring on which the search stays forever.
  abbrev pub Stuck : ℕ → Type 0
  Stuck i = (first_ready (ring i) ≡ none) × EndsInZombie (ring i)

  scan_queue-found :
      (fuel : ℕ) (ns : List Node) (keep : Option ℕ) (r : Node)
      → length ns ≤ fuel
      → first_ready ns ≡ some r
      → scan_queue k fuel ns keep ≡ found r.item r.addr
  unfolding scan_queue
  scan_queue-found fuel [] keep r h e = cc
  scan_queue-found fuel (n ∷ ns) keep r h e = scan-found fuel n ns n ns keep r h e

  scan_queue-ended :
      (fuel : ℕ) (ns : List Node) (keep : Option ℕ)
      → length ns ≤ fuel
      → first_ready ns ≡ none
      → ¬ EndsInZombie ns
      → scan_queue k fuel ns keep ≡ ended (last_running ns keep)
  unfolding scan_queue
  scan_queue-ended fuel [] keep h e z = refl
  scan_queue-ended fuel (n ∷ ns) keep h e z = scan-ended fuel n ns n ns keep h e z

  scan_queue-endless :
      (fuel : ℕ) (ns : List Node) (keep : Option ℕ)
      → first_ready ns ≡ none
      → EndsInZombie ns
      → scan_queue k fuel ns keep ≡ endless
  unfolding scan_queue
  scan_queue-endless fuel [] keep e z = absurd z
  scan_queue-endless fuel (n ∷ ns) keep e z = scan-endless fuel n ns n ns keep e z e z

  module _ (fuel : ℕ) (enough : (j : ℕ) → length (ring j) ≤ fuel) where
    find_from-ready :
        (t i : ℕ) (keep : Option ℕ) (r : Node)
        → i < t
        → ((j : ℕ) → i < j → j < t → Passed (suc j))
        → first_ready (ring (suc i)) ≡ some r
        → find_from k fuel t keep ≡ ok (r.item, take k (suc i) r.item r.addr)
    unfolding find_from
    find_from-ready zero i keep r h above e = absurd (omega arith)
    find_from-ready (suc t) i keep r h above e = elim (Bool-cases (i == t)) [
      | inl same ↦
          let q : i ≡ t = (==_iff i t).0 same in
          rw (← q, scan_queue-found fuel (ring (suc i)) keep r (enough (suc i)) e, find_from)
            (ap (λ j. ok (r.item, take k (suc j) r.item r.addr)) (sym q))
      | inr other ↦
          let p : Passed (suc t) = above t (ground arith) (omega arith) in
          rw (scan_queue-ended fuel (ring (suc t)) keep (enough (suc t)) p.0 p.1, find_from)
            (find_from-ready t i _ r (ground arith) (λ j a b. above j a (omega arith)) e)
    ]

    -- `find_next_process` chooses the first READY process, in the order of the ring, of the highest
    -- priority that has one, if the rings above it are not stuck: that process is returned, made
    -- RUNNING, and the ring goes on behind it.
    pub find_next_process-highest :
        (i : ℕ) (r : Node)
        → i < high_priority
        → ((j : ℕ) → i < j → j < high_priority → Passed (suc j))
        → first_ready (ring (suc i)) ≡ some r
        → find_next_process fuel k ≡ ok (r.item, take k (suc i) r.item r.addr)
    unfolding find_next_process
    find_next_process-highest i r h above e = find_from-ready high_priority i none r h above e

    -- When nothing is READY and no ring is stuck, the last RUNNING process that the walk met goes on,
    -- and the idle process runs if there was none. Nothing changes.
    pub find_next_process-keeps :
        Passed 3
        → Passed 2
        → Passed 1
        → find_next_process fuel k
          ≡ elim (last_running (ring 1) (last_running (ring 2) (last_running (ring 3) none))) [
            | some pcb ↦ ok (pcb, k)
            | none ↦ elim (ring 0) [ [] ↦ fault | n ∷ _ ↦ ok (n.item, k) ]
          ]
    unfolding find_next_process find_from
    find_next_process-keeps p q r =
        rw (scan_queue-ended fuel (ring 3) none (enough 3) p.0 p.1, find_from)
          (rw (scan_queue-ended fuel (ring 2) _ (enough 2) q.0 q.1, find_from)
            (rw (scan_queue-ended fuel (ring 1) _ (enough 1) r.0 r.1, find_from) ground arith))

  -- A search that finds no READY process comes to the end of the ring, or does not end.
  scan-no_ready :
      (f : ℕ) (first : Node) (others : List Node) (n : Node) (more : List Node) (keep : Option ℕ)
      → first_ready (first ∷ others) ≡ none
      → first_ready (n ∷ more) ≡ none
      → (scan k f first others n more keep ≡ endless)
        ⊎ ((keep' : Option ℕ) × (scan k f first others n more keep ≡ ended keep'))
  unfolding scan
  scan-no_ready zero first others n more keep e e' = inl refl
  scan-no_ready (suc f) first others n [] keep e e' =
      ground (arith, scan-no_ready f first others first others keep e e)
  scan-no_ready (suc f) first others n (m ∷ ms) keep e e' = ground (
    arith,
    scan-no_ready f first others m ms keep e,
    scan-no_ready f first others m ms (some n.item) e,
  )

  scan_queue-no_ready :
      (fuel : ℕ) (ns : List Node) (keep : Option ℕ)
      → first_ready ns ≡ none
      → (scan_queue k fuel ns keep ≡ endless)
        ⊎ ((keep' : Option ℕ) × (scan_queue k fuel ns keep ≡ ended keep'))
  unfolding scan_queue
  scan_queue-no_ready fuel [] keep e = inr (keep, refl)
  scan_queue-no_ready fuel (n ∷ ns) keep e = scan-no_ready fuel n ns n ns keep e e

  find_from-Stuck :
      (fuel t i : ℕ) (keep : Option ℕ)
      → i < t
      → ((j : ℕ) → i < j → j < t → first_ready (ring (suc j)) ≡ none)
      → Stuck (suc i)
      → find_from k fuel t keep ≡ out_of_fuel
  unfolding find_from
  find_from-Stuck fuel zero i keep h above e = absurd (omega arith)
  find_from-Stuck fuel (suc t) i keep h above e = elim (Bool-cases (i == t)) [
    | inl same ↦
        let q : i ≡ t = (==_iff i t).0 same in
        rw (← q, scan_queue-endless fuel (ring (suc i)) keep e.0 e.1, find_from)
    | inr other ↦
        elim (scan_queue-no_ready fuel (ring (suc t)) keep (above t (ground arith) (omega arith))) [
          | inl stay ↦ rw (stay, find_from)
          | inr (keep', done) ↦
              rw (done, find_from)
                (find_from-Stuck fuel t i keep' (ground arith) (λ j a b. above j a (omega arith)) e)
        ]
  ]

  -- When a ring has no READY process and ends in a ZOMBIE, and no ring above it has a READY process,
  -- the search never returns, whatever the fuel: it walks that ring forever.
  pub find_next_process-Stuck :
      (fuel i : ℕ)
      → i < high_priority
      → ((j : ℕ) → i < j → j < high_priority → first_ready (ring (suc j)) ≡ none)
      → Stuck (suc i)
      → find_next_process fuel k ≡ out_of_fuel
  unfolding find_next_process
  find_next_process-Stuck fuel i h above e = find_from-Stuck fuel high_priority i none h above e
