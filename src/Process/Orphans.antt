-- ===== src/Process/Orphans.antt =====
-- What the end of a process does to its children.
use boke_os.Base.{
  ap, ℕ, zero, suc, ◌+◌, ◌<◌, ◌≢◌, ◌≡◌, refl, sym, ◌∙◌, ◌≤◌, ==_iff, arith, Bool-cases, inl, inr,
  true, List, [], ◌∷◌, ◌==◌,
}
use mathlib.Core.Path.{subst}
use boke_os.Queue.{Node}
use boke_os.Kernel.{SchedulerQueue, Kernel, process_at, shell_pid}
use boke_os.Scheduler.Blocking.{reassign, reassign_nodes, reassign_from, reassign_children_to_shell}

module _ {Mem : Type 0} (old : ℕ) where
  -- No node is one of a child of the process `old`.
  abbrev pub NoChild : Kernel Mem → List Node → Type 0
  NoChild k [] = Unit
  NoChild k (n ∷ ns) = ((process_at k n.item).parent_pid ≢ old) × NoChild k ns

  -- The second state has the rings and the entries of the first, and no more children of `old`.
  pub record Fewer (k k' : Kernel Mem) : Type 0 where
    pub rings : k'.scheduler ≡ k.scheduler
    pub entries : k'.pcbs ≡ k.pcbs
    pub front : k'.foreground_pid ≡ k.foreground_pid
    pub removal : k'.waiting_for_remove ≡ k.waiting_for_remove
    pub same_pid : (a : ℕ) → (k'.procs a).pid ≡ (k.procs a).pid
    pub fewer : (a : ℕ) → (k.procs a).parent_pid ≢ old → (k'.procs a).parent_pid ≢ old

  pub Fewer-refl : (k : Kernel Mem) → Fewer k k
  Fewer-refl k = record {
    rings = refl;
    entries = refl;
    front = refl;
    removal = refl;
    same_pid = λ a. refl;
    fewer = λ a h. h;
  }

  pub Fewer-trans : (k k' k'' : Kernel Mem) → Fewer k k' → Fewer k' k'' → Fewer k k''
  Fewer-trans k k' k'' f g = record {
    rings = g.rings ∙ f.rings;
    entries = g.entries ∙ f.entries;
    front = g.front ∙ f.front;
    removal = g.removal ∙ f.removal;
    same_pid = λ a. g.same_pid a ∙ f.same_pid a;
    fewer = λ a h. g.fewer a (f.fewer a h);
  }

  reassign-Fewer : (n : Node) (k : Kernel Mem) → old ≢ shell_pid → Fewer k (reassign old n k)
  unfolding reassign
  reassign-Fewer n k s = elim (Bool-cases ((k.procs (k.pcbs n.item).process).parent_pid == old)) [
    | inl e ↦ rw e (record {
      rings = refl;
      entries = refl;
      front = refl;
      removal = refl;
      same_pid = λ a. elim (Bool-cases (a == (k.pcbs n.item).process)) [
        | inl g ↦ rw g (ap (λ b. (k.procs b).pid) (sym ((==_iff a (k.pcbs n.item).process).0 g)))
        | inr g ↦ rw g refl
      ];
      fewer = λ a h. elim (Bool-cases (a == (k.pcbs n.item).process)) [
        | inl g ↦ rw g (λ x. s (sym x))
        | inr g ↦ rw g h
      ];
    })
    | inr e ↦ rw e (Fewer-refl k)
  ]

  reassign-first :
      (n : Node) (k : Kernel Mem)
      → old ≢ shell_pid
      → (process_at (reassign old n k) n.item).parent_pid ≢ old
  unfolding reassign
  reassign-first n k s = elim (Bool-cases ((k.procs (k.pcbs n.item).process).parent_pid == old)) [
    | inl e ↦
        let same : ((k.pcbs n.item).process == (k.pcbs n.item).process) ≡ true = ground arith in
        rw (e, same) (λ x. s (sym x))
    | inr e ↦ rw e (λ h. ground (arith, e, h))
  ]

  pub NoChild-keep :
      (k k' : Kernel Mem) (ns : List Node) → Fewer k k' → NoChild k ns → NoChild k' ns
  NoChild-keep k k' [] f h = tt
  NoChild-keep k k' (n ∷ ns) f h = (keep f h.0, NoChild-keep k k' ns f h.1)
    where
      keep :
          Fewer k k'
          → (process_at k n.item).parent_pid ≢ old
          → (process_at k' n.item).parent_pid ≢ old
      keep f h = rw (f.entries) (f.fewer (k.pcbs n.item).process h)

  reassign_nodes-NoChild :
      (ns : List Node) (k : Kernel Mem)
      → old ≢ shell_pid
      → Fewer k (reassign_nodes old ns k) × NoChild (reassign_nodes old ns k) ns
  unfolding reassign_nodes
  reassign_nodes-NoChild [] k s = (Fewer-refl k, tt)
  reassign_nodes-NoChild (n ∷ ns) k s =
      let k' = reassign old n k in
      let (f, rest) = reassign_nodes-NoChild ns k' s in
      let first =
        NoChild-keep k' (reassign_nodes old ns k') (n ∷ []) f (reassign-first n k s, tt) in
      (Fewer-trans k k' (reassign_nodes old ns k') (reassign-Fewer n k s) f, (first.0, rest))

  pub reassign_from-NoChild :
      (rounds i : ℕ) (k : Kernel Mem)
      → old ≢ shell_pid
      → Fewer k (reassign_from old rounds i k)
        × ((j : ℕ)
            → i ≤ j
            → j < i + rounds
            → NoChild (reassign_from old rounds i k) (k.scheduler j).queue.nodes)
  unfolding reassign_from
  reassign_from-NoChild zero i k s = (Fewer-refl k, λ j l m. absurd (omega arith))
  reassign_from-NoChild (suc rounds) i k s =
      let ring = (k.scheduler i).queue.nodes in
      let k' = reassign_nodes old ring k in
      let (f, none_here) = reassign_nodes-NoChild ring k s in
      let (g, rest) = reassign_from-NoChild rounds (i + 1) k' s in
      (
        Fewer-trans k k' (reassign_from old rounds (i + 1) k') f g,
        λ j l m. elim (Bool-cases (j == i)) [
          | inl e ↦
              let here : j ≡ i = (==_iff j i).0 e in
              rw here (NoChild-keep k' (reassign_from old rounds (i + 1) k') ring g none_here)
          | inr e ↦
              subst
                (λ (sch : ℕ → SchedulerQueue).
                  NoChild (reassign_from old rounds (i + 1) k') (sch j).queue.nodes)
                f.rings (rest j (ground arith) (omega (arith, m)))
        ],
      )

pub reassign_children_to_shell-Fewer :
    {Mem : Type 0} (old : ℕ) (k : Kernel Mem)
    → old ≢ shell_pid
    → Fewer old k (reassign_children_to_shell old k)
unfolding reassign_children_to_shell
reassign_children_to_shell-Fewer old k s = (reassign_from-NoChild old 4 0 k s).0

-- After `reassign_children_to_shell` no process of the four rings is a child of the process that
-- ends, unless that is the shell.
pub reassign_children_to_shell-NoChild :
    {Mem : Type 0} (old : ℕ) (k : Kernel Mem) (i : ℕ)
    → old ≢ shell_pid
    → i < 4
    → NoChild old
        (reassign_children_to_shell old k)
        ((reassign_children_to_shell old k).scheduler i).queue.nodes
unfolding reassign_children_to_shell
reassign_children_to_shell-NoChild old k i s h =
    let (f, none_left) = reassign_from-NoChild old 4 0 k s in
    subst (λ (sch : ℕ → SchedulerQueue). NoChild old (reassign_from old 4 0 k) (sch i).queue.nodes)
      (sym f.rings) (none_left i (omega arith) (omega (arith, h)))
