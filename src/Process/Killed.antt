-- ===== src/Process/Killed.antt =====
-- The state that `force_kill` of Kernel/process.c leaves.
use boke_os.Base.{
  ℕ, ◌≡◌, ◌≢◌, ◌<◌, refl, sym, ◌∙◌, ap, inl, inr, true, false, Bool-cases, ==_iff, some, List, [],
  ◌∷◌, ◌==◌, if◌then◌else◌, arith,
}
use mathlib.Core.Path.{subst}
use boke_os.Queue.{Node, insert}
use boke_os.Kernel.{
  SchedulerQueue, Process, Kernel, Allocator, dead, process_at, set_status, shell_pid,
}
use boke_os.Scheduler.Search.{get_pcb_entry}
use boke_os.Scheduler.Blocking.{reassign_children_to_shell}
use boke_os.Semaphore.Locks.{my_sem_post}
use boke_os.Semaphore.Frame.{Frame, my_sem_post-Frame}
use boke_os.Process.Kill.{add_process_to_removal_queue, end_tick_of, force_kill, force_kill_pcb}
use boke_os.Process.Orphans.{
  NoChild, Fewer, Fewer-trans, NoChild-keep, reassign_children_to_shell-Fewer,
  reassign_children_to_shell-NoChild,
}
use boke_os.Process.Removing.{
  get_pcb_entry-pid, Queued, add_process_to_removal_queue-Removal, Ticked, end_tick_of-Ticked,
}

module _ (A : Allocator) where
  Fewer-of_Frame : (old : ℕ) (k k' : Kernel A.Mem) → Frame k k' → Fewer old k k'
  Fewer-of_Frame old k k' f = record {
    rings = f.rings;
    entries = f.entries;
    front = f.front;
    removal = f.removal;
    same_pid = f.same_pid;
    fewer = λ a h e. h (sym (f.same_parent a) ∙ e);
  }

  set_dead : (old : ℕ) (k : Kernel A.Mem) (pcb : ℕ) → Fewer old k (set_status k pcb dead)
  set_dead old k pcb = record {
    rings = refl;
    entries = refl;
    front = refl;
    removal = refl;
    same_pid = λ a. elim (Bool-cases (a == (k.pcbs pcb).process)) [
      | inl g ↦ rw g (ap (λ b. (k.procs b).pid) (sym ((==_iff a (k.pcbs pcb).process).0 g)))
      | inr g ↦ rw g refl
    ];
    fewer = λ a h. elim (Bool-cases (a == (k.pcbs pcb).process)) [
      | inl g ↦
          rw g (subst (λ b. (k.procs b).parent_pid ≢ old) ((==_iff a (k.pcbs pcb).process).0 g) h)
      | inr g ↦ rw g h
    ];
  }

  marked : (k : Kernel A.Mem) (pcb : ℕ) → (process_at (set_status k pcb dead) pcb).status ≡ dead
  marked k pcb =
      let same : ((k.pcbs pcb).process == (k.pcbs pcb).process) ≡ true = ground arith in
      rw same refl

  NoChild-same :
      (old : ℕ) (k k' : Kernel A.Mem) (ns : List Node)
      → ((n : ℕ) → process_at k' n ≡ process_at k n)
      → NoChild old k ns
      → NoChild old k' ns
  NoChild-same old k k' [] same h = tt
  NoChild-same old k k' (n ∷ ns) same h = (
    subst (λ (p : Process). p.parent_pid ≢ old) (sym (same n.item)) h.0,
    NoChild-same old k k' ns same h.1,
  )

  own_kept :
      (old : ℕ) (k k' : Kernel A.Mem) (pcb : ℕ)
      → Fewer old k k'
      → (process_at k' pcb).pid ≡ (process_at k pcb).pid
  own_kept old k k' pcb f = rw (f.entries) (f.same_pid (k.pcbs pcb).process)

  -- The process in the foreground is not the one that ends.
  front_moved :
      (front own pid : ℕ)
      → own ≡ pid
      → pid ≢ shell_pid
      → (if front == own then shell_pid else front) ≢ pid
  front_moved front own pid o s e = ground arith

  Queued-tick :
      (pid p : ℕ) (k k3 k4 k5 : Kernel A.Mem)
      → p ≡ pid
      → k3.waiting_for_remove ≡ k.waiting_for_remove
      → Queued A p k3 k4
      → Ticked A k4 k5
      → Queued A pid k k5
  Queued-tick pid p k k3 k4 k5 e w (inl (n, item, q)) t =
      inl (n, item ∙ e, t.removal ∙ q ∙ ap (λ x. insert x n) w)
  Queued-tick pid p k k3 k4 k5 e w (inr (m, null, q)) t = inr (m, null, t.mem ∙ q)

  force_kill-found :
      (k : Kernel A.Mem) (pid pcb : ℕ)
      → get_pcb_entry k pid ≡ some pcb
      → (k.pcbs pcb).process ≢ 0
      → pid ≢ shell_pid
      → force_kill A pid k ≡ (true, force_kill_pcb A pcb pid k)
  unfolding force_kill
  force_kill-found k pid pcb e x s =
      let there : ((k.pcbs pcb).process == 0) ≡ false = ground arith in
      let other : (pid == shell_pid) ≡ false = ground arith in rw (e, there, other, force_kill) refl

  -- The state when the process is dead, and before it goes to the removal queue.
  abbrev Dead : (pid pcb i : ℕ) → Kernel A.Mem → Kernel A.Mem → Type 0
  Dead pid pcb i k k' =
      ((process_at k' pcb).status ≡ dead)
      × (k'.foreground_pid ≢ pid)
      × NoChild pid k' (k'.scheduler i).queue.nodes
      × Queued A pid k k'

  force_kill_pcb-Dead :
      (k : Kernel A.Mem) (pid pcb i : ℕ)
      → (process_at k pcb).pid ≡ pid
      → pid ≢ shell_pid
      → i < 4
      → Dead pid pcb i k (force_kill_pcb A pcb pid k)
  unfolding force_kill_pcb
  force_kill_pcb-Dead k pid pcb i own s h =
      let k0 : Kernel A.Mem = record k {
        foreground_pid =
            if k.foreground_pid == (process_at k pcb).pid then shell_pid else k.foreground_pid;
      } in
      let k1 = reassign_children_to_shell pid k0 in
      let k2 = (my_sem_post A (process_at k1 pcb).sem_name k1).1 in
      let k3 = set_status k2 pcb dead in
      let p = (process_at k2 pcb).pid in
      let k4 = add_process_to_removal_queue A p k3 in
      let k5 = end_tick_of A pid k4 in
      let f01 : Fewer pid k0 k1 = reassign_children_to_shell-Fewer pid k0 s in
      let f12 : Fewer pid k1 k2 = Fewer-of_Frame pid k1 k2 (my_sem_post-Frame A _ k1) in
      let f23 : Fewer pid k2 k3 = set_dead pid k2 pcb in
      let f13 = Fewer-trans pid k1 k2 k3 f12 f23 in
      let f02 = Fewer-trans pid k0 k1 k2 f01 f12 in
      let f03 = Fewer-trans pid k0 k1 k3 f01 f13 in
      let q = add_process_to_removal_queue-Removal A p k3 in
      let t = end_tick_of-Ticked A pid k4 in
      let same : (n : ℕ) → process_at k5 n ≡ process_at k3 n = λ n. t.same n ∙ q.same n in
      let rings : k5.scheduler ≡ k1.scheduler = t.rings ∙ q.rings ∙ f13.rings in
      let own2 : p ≡ pid = own_kept pid k0 k2 pcb f02 ∙ own in
      (
        ap (λ (x : Process). x.status) (same pcb) ∙ marked k2 pcb,
        λ e.
            front_moved k.foreground_pid (process_at k pcb).pid pid own s
              (sym (t.front ∙ q.front ∙ f03.front) ∙ e),
        subst (λ (sch : ℕ → SchedulerQueue). NoChild pid k5 (sch i).queue.nodes) (sym rings)
            (NoChild-same pid k3 k5 (k1.scheduler i).queue.nodes same (
              NoChild-keep pid k1 k3 (k1.scheduler i).queue.nodes f13
                (reassign_children_to_shell-NoChild pid k0 i s h))),
        Queued-tick pid p k k3 k4 k5 own2 f03.removal q.queued t,
      )

  -- `force_kill` of a process that has an entry and is not the shell succeeds. When it returns, or raises
  -- the interrupt where the process ends itself, the process is dead, it is not the one in the
  -- foreground, no process of the rings is its child, and it waits for its removal unless `malloc`
  -- gave NULL.
  pub force_kill-dead :
      (k : Kernel A.Mem) (pid pcb i : ℕ)
      → get_pcb_entry k pid ≡ some pcb
      → (k.pcbs pcb).process ≢ 0
      → pid ≢ shell_pid
      → i < 4
      → ((force_kill A pid k).0 ≡ true)
        × ((process_at (force_kill A pid k).1 pcb).status ≡ dead)
        × ((force_kill A pid k).1.foreground_pid ≢ pid)
        × NoChild pid (force_kill A pid k).1 ((force_kill A pid k).1.scheduler i).queue.nodes
        × Queued A pid k (force_kill A pid k).1
  force_kill-dead k pid pcb i e x s h = rw (force_kill-found k pid pcb e x s) (
      let d = force_kill_pcb-Dead k pid pcb i (get_pcb_entry-pid k pid pcb e) s h in
      (refl, d.0, d.1, d.2, d.3))
