-- ===== src/Semaphore/Frame.antt =====
-- What waking processes, as in Kernel/semaphore.c, leaves as it is, and what it does to a process that is
-- BLOCKED or READY.
use boke_os.Base.{
  ℕ, zero, suc, ◌+◌, ◌≡◌, refl, sym, ◌∙◌, ap, ◌⊎◌, inl, inr, Bool-cases, Option-cases, ==_iff,
  Option, none, some, List, [], ◌∷◌, ◌==◌, ltb, leb,
}
use boke_os.Queue.{Node}
use boke_os.Kernel.{
  SchedulerQueue, Kernel, Allocator, Status, blocked, ready, process_at, set_status,
}
use boke_os.Scheduler.Search.{find_pid, find_pid_from, get_pcb_entry}
use boke_os.Scheduler.Blocking.{revived, os_revive_process}
use boke_os.Semaphore.Spaces.{set_space, locate_sem}
use boke_os.Semaphore.Locks.{
  my_sem_post, leave_region, wake_up_processes, remove_from_queue, revive, wake_from,
}

-- The rings, the entries, the process in the foreground and the queue of removal are the same, and so are
-- the identifiers and the parents of the processes; who is READY stays READY, and who is BLOCKED stays it
-- or becomes READY.
pub record Frame {Mem : Type 0} (k k' : Kernel Mem) : Type 0 where
  pub rings : k'.scheduler ≡ k.scheduler
  pub entries : k'.pcbs ≡ k.pcbs
  pub front : k'.foreground_pid ≡ k.foreground_pid
  pub removal : k'.waiting_for_remove ≡ k.waiting_for_remove
  pub same_pid : (a : ℕ) → (k'.procs a).pid ≡ (k.procs a).pid
  pub same_parent : (a : ℕ) → (k'.procs a).parent_pid ≡ (k.procs a).parent_pid
  pub stays : (a : ℕ) → (k.procs a).status ≡ ready → (k'.procs a).status ≡ ready
  pub wakes :
      (a : ℕ)
      → (k.procs a).status ≡ blocked
      → ((k'.procs a).status ≡ blocked) ⊎ ((k'.procs a).status ≡ ready)

revived-ready : (st : Status) → st ≡ ready → revived st ≡ ready
revived-ready st e = rw e refl

revived-blocked : (st : Status) → st ≡ blocked → revived st ≡ ready
revived-blocked st e = rw e refl

module _ {Mem : Type 0} where
  pub unmoved : (k : Kernel Mem) → Frame k k
  unmoved k = record {
    rings = refl;
    entries = refl;
    front = refl;
    removal = refl;
    same_pid = λ a. refl;
    same_parent = λ a. refl;
    stays = λ a e. e;
    wakes = λ a e. inl e;
  }

  pub Frame-trans : (k k' k'' : Kernel Mem) → Frame k k' → Frame k' k'' → Frame k k''
  Frame-trans k k' k'' f g = record {
    rings = g.rings ∙ f.rings;
    entries = g.entries ∙ f.entries;
    front = g.front ∙ f.front;
    removal = g.removal ∙ f.removal;
    same_pid = λ a. g.same_pid a ∙ f.same_pid a;
    same_parent = λ a. g.same_parent a ∙ f.same_parent a;
    stays = λ a e. g.stays a (f.stays a e);
    wakes = λ a e. elim (f.wakes a e) [ inl b ↦ g.wakes a b | inr r ↦ inr (g.stays a r) ];
  }

  set_revived :
      (k : Kernel Mem) (pcb : ℕ) → Frame k (set_status k pcb (revived (process_at k pcb).status))
  set_revived k pcb =
      let x = (k.pcbs pcb).process in
      record {
        rings = refl;
        entries = refl;
        front = refl;
        removal = refl;
        same_pid = λ a. elim (Bool-cases (a == x)) [
          | inl g ↦ rw g (ap (λ b. (k.procs b).pid) (sym ((==_iff a x).0 g)))
          | inr g ↦ rw g refl
        ];
        same_parent = λ a. elim (Bool-cases (a == x)) [
          | inl g ↦ rw g (ap (λ b. (k.procs b).parent_pid) (sym ((==_iff a x).0 g)))
          | inr g ↦ rw g refl
        ];
        stays = λ a e. elim (Bool-cases (a == x)) [
          | inl g ↦
              rw g (revived-ready _ (ap (λ b. (k.procs b).status) (sym ((==_iff a x).0 g)) ∙ e))
          | inr g ↦ rw g e
        ];
        wakes = λ a e. elim (Bool-cases (a == x)) [
          | inl g ↦
              rw g (
                inr (revived-blocked _ (ap (λ b. (k.procs b).status) (sym ((==_iff a x).0 g)) ∙ e)))
          | inr g ↦ rw g (inl e)
        ];
      }

  pub os_revive_process-Frame : (pid : ℕ) (k : Kernel Mem) → Frame k (os_revive_process pid k)
  unfolding os_revive_process
  os_revive_process-Frame pid k = elim (Option-cases (get_pcb_entry k pid)) [
    | inl e ↦ rw (e, os_revive_process) (unmoved k)
    | inr (pcb, e) ↦ rw (e, os_revive_process) (set_revived k pcb)
  ]

  -- The entry of a process is found where it was.
  find_pid-same :
      (k k' : Kernel Mem) (pid : ℕ) (ns : List Node)
      → Frame k k'
      → find_pid k' pid ns ≡ find_pid k pid ns
  unfolding find_pid
  find_pid-same k k' pid [] f = refl
  find_pid-same k k' pid (n ∷ ns) f =
      rw (f.entries) (rw (f.same_pid (k.pcbs n.item).process, find_pid-same k k' pid ns f) refl)

  find_pid_from-same :
      (k k' : Kernel Mem) (pid r i : ℕ)
      → Frame k k'
      → find_pid_from k' pid r i ≡ find_pid_from k pid r i
  unfolding find_pid_from
  find_pid_from-same k k' pid zero i f = refl
  find_pid_from-same k k' pid (suc r) i f =
      let ring : find_pid k' pid (k'.scheduler i).queue.nodes
          ≡ find_pid k pid (k.scheduler i).queue.nodes =
        ap (λ (sch : ℕ → SchedulerQueue). find_pid k' pid (sch i).queue.nodes) f.rings
        ∙ find_pid-same k k' pid (k.scheduler i).queue.nodes f in
      elim (Option-cases (find_pid k pid (k.scheduler i).queue.nodes)) [
        | inl e ↦ rw (ring ∙ e, e, find_pid_from) (find_pid_from-same k k' pid r (i + 1) f)
        | inr (pcb, e) ↦ rw (ring ∙ e, e, find_pid_from) refl
      ]

  pub get_pcb_entry-same :
      (k k' : Kernel Mem) (pid : ℕ) → Frame k k' → get_pcb_entry k' pid ≡ get_pcb_entry k pid
  unfolding get_pcb_entry
  get_pcb_entry-same k k' pid f = find_pid_from-same k k' pid 4 0 f

Waiters-cases : (ws : List Node) → (ws ≡ []) ⊎ ((n : Node) × (ns : List Node) × (ws ≡ n ∷ ns))
Waiters-cases [] = inl refl
Waiters-cases (n ∷ ns) = inr (n, ns, refl)

module _ (A : Allocator) where
  pub remove_from_queue-Frame : (sem : ℕ) (k : Kernel A.Mem) → Frame k (remove_from_queue A sem k).1
  unfolding remove_from_queue
  remove_from_queue-Frame sem k = elim (Bool-cases (leb 128 sem)) [
    | inl e ↦ rw e (unmoved k)
    | inr e ↦ elim (Waiters-cases (k.sem_spaces sem).waiters) [
      | inl q ↦ rw (e, q, remove_from_queue) (unmoved k)
      | inr (n, ns, q) ↦
          rw (e, q, remove_from_queue)
            (record {
              rings = refl;
              entries = refl;
              front = refl;
              removal = refl;
              same_pid = λ a. refl;
              same_parent = λ a. refl;
              stays = λ a h. h;
              wakes = λ a h. inl h;
            })
    ]
  ]

  pub revive-Frame : (o : Option ℕ) (k : Kernel A.Mem) → Frame k (revive A o k)
  unfolding revive
  revive-Frame none k = unmoved k
  revive-Frame (some pid) k = os_revive_process-Frame pid k

  pub wake_from-Frame : (r i sem : ℕ) (k : Kernel A.Mem) → Frame k (wake_from A sem r i k)
  unfolding wake_from
  wake_from-Frame zero i sem k = unmoved k
  wake_from-Frame (suc r) i sem k = elim (Bool-cases (ltb i (k.sem_spaces sem).queue_size)) [
    | inl more ↦
        let k' = (remove_from_queue A sem k).1 in
        let o = (remove_from_queue A sem k).0 in
        let k'' = revive A o k' in
        let first = Frame-trans k k' k'' (remove_from_queue-Frame sem k) (revive-Frame o k') in
        rw more (
          Frame-trans k k'' (wake_from A sem r (i + 1) k'') first
            (wake_from-Frame r (i + 1) sem k''))
    | inr over ↦ rw over (unmoved k)
  ]

  pub my_sem_post-Frame : (id : List ℕ) (k : Kernel A.Mem) → Frame k (my_sem_post A id k).1
  unfolding my_sem_post leave_region wake_up_processes
  my_sem_post-Frame id k = elim (Option-cases (locate_sem id k)) [
    | inl e ↦ rw (e, my_sem_post) (unmoved k)
    | inr (i, e) ↦
        let k' = set_space i (record (k.sem_spaces i) { is_locked = 0 }) k in
        let set : Frame k k' = record {
          rings = refl;
          entries = refl;
          front = refl;
          removal = refl;
          same_pid = λ a. refl;
          same_parent = λ a. refl;
          stays = λ a h. h;
          wakes = λ a h. inl h;
        } in
        rw (e, my_sem_post)
          (Frame-trans k k' _ set (wake_from-Frame (k'.sem_spaces i).queue_size 0 i k'))
  ]
