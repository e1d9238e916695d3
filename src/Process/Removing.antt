-- ===== src/Process/Removing.antt =====
-- Finding an entry, queueing a process for its removal and ending a tick, as Kernel/process.c and
-- Kernel/basicScheduler.c do at the end of a process.
use boke_os.Base.{
  ℕ, zero, suc, ◌+◌, ◌≡◌, refl, sym, ◌∙◌, ap, ◌⊎◌, inl, inr, true, false, Bool-cases, Option-cases,
  ==_iff, none, some, List, [], ◌∷◌, ◌==◌, eq_of_some,
}
use mathlib.Core.Path.{subst}
use boke_os.Queue.{Node, insert}
use boke_os.Kernel.{Kernel, Allocator, process_at, create_node}
use boke_os.Scheduler.Search.{get_pcb_entry, find_pid, find_pid_from, current_process_id}
use boke_os.Scheduler.Priority.{finish_current_tick}
use boke_os.Semaphore.Spaces.{same_pid}
use boke_os.Process.Kill.{add_process_to_removal_queue, end_tick_of}
use boke_os.Process.Orphans.{}

-- The entry that is found for a pid is that of a process with it.
find_pid-pid :
    {Mem : Type 0} (k : Kernel Mem) (pid pcb : ℕ) (ns : List Node)
    → find_pid k pid ns ≡ some pcb
    → (process_at k pcb).pid ≡ pid
unfolding find_pid
find_pid-pid k pid pcb [] e = cc
find_pid-pid k pid pcb (n ∷ ns) e = elim (Bool-cases ((process_at k n.item).pid == pid)) [
  | inl g ↦
      subst (λ x. (process_at k x).pid ≡ pid) (eq_of_some (rw g at e))
        ((==_iff (process_at k n.item).pid pid).0 g)
  | inr g ↦ find_pid-pid k pid pcb ns (rw g at e)
]

find_pid_from-pid :
    {Mem : Type 0} (k : Kernel Mem) (pid pcb r i : ℕ)
    → find_pid_from k pid r i ≡ some pcb
    → (process_at k pcb).pid ≡ pid
unfolding find_pid_from
find_pid_from-pid k pid pcb zero i e = cc
find_pid_from-pid k pid pcb (suc r) i e =
    elim (Option-cases (find_pid k pid (k.scheduler i).queue.nodes)) [
      | inl g ↦ find_pid_from-pid k pid pcb r (i + 1) (rw (g, find_pid_from) at e)
      | inr (q, g) ↦
          find_pid-pid k pid pcb (k.scheduler i).queue.nodes (g ∙ (rw (g, find_pid_from) at e))
    ]

pub get_pcb_entry-pid :
    {Mem : Type 0} (k : Kernel Mem) (pid pcb : ℕ)
    → get_pcb_entry k pid ≡ some pcb
    → (process_at k pcb).pid ≡ pid
unfolding get_pcb_entry
get_pcb_entry-pid k pid pcb e = find_pid_from-pid k pid pcb 4 0 e

-- The removal queue has a new node with the pid, or `malloc` gave NULL for it.
abbrev pub Queued : (A : Allocator) → (pid : ℕ) → Kernel A.Mem → Kernel A.Mem → Type 0
Queued A pid k k' =
    ((n : Node) × (n.item ≡ pid) × (k'.waiting_for_remove ≡ insert k.waiting_for_remove n))
    ⊎ ((m : A.Mem) × ((A.malloc 24 m).0 ≡ 0) × (k'.mem ≡ (A.malloc 24 m).1))

module _ (A : Allocator) where
  -- What `add_process_to_removal_queue` leaves as it is, and what it adds.
  pub record Removal (p : ℕ) (k k' : Kernel A.Mem) : Type 0 where
    pub same : (n : ℕ) → process_at k' n ≡ process_at k n
    pub rings : k'.scheduler ≡ k.scheduler
    pub front : k'.foreground_pid ≡ k.foreground_pid
    pub queued : Queued A p k k'

  null_node :
      (p : ℕ) (k : Kernel A.Mem)
      → ((A.malloc 24 k.mem).0 == 0) ≡ true
      → create_node A p k ≡ (none, record k { mem = (A.malloc 24 k.mem).1 })
  unfolding create_node
  null_node p k e = rw (e, create_node) refl

  new_node :
      (p : ℕ) (k : Kernel A.Mem)
      → ((A.malloc 24 k.mem).0 == 0) ≡ false
      → create_node A p k ≡ (
        some (record { addr = (A.malloc 24 k.mem).0; item = p }),
        record k { mem = (A.malloc 24 k.mem).1 },
      )
  unfolding create_node
  new_node p k e = rw (e, create_node) refl

  pub add_process_to_removal_queue-Removal :
      (p : ℕ) (k : Kernel A.Mem) → Removal p k (add_process_to_removal_queue A p k)
  unfolding add_process_to_removal_queue
  add_process_to_removal_queue-Removal p k = elim (Bool-cases ((A.malloc 24 k.mem).0 == 0)) [
    | inl e ↦
        rw (null_node p k e, add_process_to_removal_queue)
          (rw (null_node p k e) (record {
            same = λ n. refl;
            rings = refl;
            front = refl;
            queued = inr (k.mem, (==_iff (A.malloc 24 k.mem).0 0).0 e, refl);
          }))
    | inr e ↦
        rw (new_node p k e, add_process_to_removal_queue)
          (rw (new_node p k e) (record {
            same = λ n. refl;
            rings = refl;
            front = refl;
            queued = inl (record { addr = (A.malloc 24 k.mem).0; item = p }, refl, refl);
          }))
  ]

  -- `end_tick_of` changes the ticks of an entry only.
  pub record Ticked (k k' : Kernel A.Mem) : Type 0 where
    pub same : (n : ℕ) → process_at k' n ≡ process_at k n
    pub rings : k'.scheduler ≡ k.scheduler
    pub front : k'.foreground_pid ≡ k.foreground_pid
    pub removal : k'.waiting_for_remove ≡ k.waiting_for_remove
    pub mem : k'.mem ≡ k.mem

  tick : (k : Kernel A.Mem) (n : ℕ) → process_at (finish_current_tick k) n ≡ process_at k n
  unfolding finish_current_tick
  tick k n = elim (Bool-cases (n == k.current_pcb)) [
    | inl e ↦ rw e (ap (process_at k) (sym ((==_iff n k.current_pcb).0 e)))
    | inr e ↦ rw e refl
  ]

  pub end_tick_of-Ticked : (pid : ℕ) (k : Kernel A.Mem) → Ticked k (end_tick_of A pid k)
  unfolding end_tick_of finish_current_tick
  end_tick_of-Ticked pid k = elim (Bool-cases (same_pid (some pid) (current_process_id k))) [
    | inl e ↦
        rw e (record { same = tick k; rings = refl; front = refl; removal = refl; mem = refl })
    | inr e ↦
        rw e (record { same = λ n. refl; rings = refl; front = refl; removal = refl; mem = refl })
  ]
