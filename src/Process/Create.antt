-- ===== src/Process/Create.antt =====
-- Kernel/process.c: the creation of processes.
use boke_os.Base.{
  ℕ, ◌+◌, ◌-◌, Option, none, some, List, [], ◌∷◌, ◌==◌, ltb, if◌then◌else◌, update, length,
}
use boke_os.Base.Int.{ℤ, pos, negsuc}
use boke_os.Queue.{insert}
use boke_os.Kernel.{Kernel, Process, ready, Allocator, process_at, create_node, release}
use boke_os.Console.Numbers.{uint_to_base}
use boke_os.Scheduler.Priority.{add_new_process}
use boke_os.Semaphore.Spaces.{my_sem_open}

-- `MIN_HEAP_SIZE` and `MIN_STACK_SIZE`
abbrev pub min_size : ℕ
min_size = 0x1000

-- What a caller asks for. `name` and `entry_point` are `none` where they are NULL.
pub record Request : Type 0 where
  pub parent_pid : ℤ
  pub foreground : ℕ
  pub name : Option (List ℕ)
  pub heap_size : ℕ
  pub stack_size : ℕ
  pub entry_point : Option ℕ
  pub fr : ℕ
  pub fw : ℕ

-- The stack pointer that `create_stackframe` of Kernel/asm/interrupts.asm gives: twenty words are
-- pushed.
abbrev pub stackframe : (top : ℕ) → ℕ
stackframe top = top - 160

-- The digits of a pid as text. A pid is below 2 ^ 64, so 64 rounds are enough.
unfoldable pub pid_name : ℕ → List ℕ
unfolding uint_to_base
pid_name pid = elim (uint_to_base 64 pid 10) [ none ↦ [] | some cs ↦ cs ]

-- A parent pid below 0 stands for the pid that the fresh memory happens to hold.
abbrev pub parent_of : ℤ → (old_pid : ℕ) → ℕ
parent_of (pos n) old = n
parent_of (negsuc n) old = old

module _ (A : Allocator) where
  -- `malloc(size)`
  unfoldable pub take : ℕ → Kernel A.Mem → ℕ × Kernel A.Mem
  take size k = let (a, m) = A.malloc size k.mem in (a, record k { mem = m })

  -- `free` of each address in turn.
  unfoldable pub release_all : List ℕ → Kernel A.Mem → Kernel A.Mem
  release_all [] k = k
  release_all (a ∷ rest) k = release_all rest (release A a k)

  -- `create_process` once all memory is there.
  unfoldable pub fill_process :
      Request
      → (name : List ℕ) → (at name_at heap_at heap_base stack_at stack_base pid : ℕ) → Kernel A.Mem
      → Kernel A.Mem
  unfolding my_sem_open pid_name
  fill_process r name at name_at heap_at heap_base stack_at stack_base pid k =
      let heap_size = if ltb r.heap_size min_size then min_size else r.heap_size in
      let stack_size = if ltb r.stack_size min_size then min_size else r.stack_size in
      let p : Process = record {
        pid = pid;
        parent_pid = parent_of r.parent_pid (k.procs at).pid;
        status = ready;
        name_at = name_at;
        name = name;
        foreground = r.foreground;
        stack_at = stack_at;
        stack = record {
          base = stack_base;
          size = stack_size;
          current = stackframe (stack_base + stack_size);
        };
        heap_at = heap_at;
        heap = record { base = heap_base; size = heap_size; current = heap_base };
        sem_name = pid_name pid;
        fr = r.fr;
        fw = r.fw;
      } in
      let k' = record k {
        procs = update k.procs at p;
        foreground_pid = if r.foreground == 0 then k.foreground_pid else pid;
      } in
      (my_sem_open 1 (pid_name pid) k').1

  -- `create_process`: the address of the process, 0 for NULL. What was allocated before a failure is
  -- given back; the pid stays used.
  unfoldable pub create_process : Request → (name : List ℕ) → Kernel A.Mem → ℕ × Kernel A.Mem
  unfolding take release_all fill_process
  create_process r name k =
      let heap_size = if ltb r.heap_size min_size then min_size else r.heap_size in
      let stack_size = if ltb r.stack_size min_size then min_size else r.stack_size in
      let (at, k₁) = take 64 k in
      if at == 0
      then (0, k₁)
      else (let pid = k₁.pid in
          let (name_at, k₂) = take (length name + 1) (record k₁ { pid = pid + 1 }) in
          if name_at == 0
          then (0, release_all (at ∷ []) k₂)
          else (let (heap_at, k₃) = take 24 k₂ in
              if heap_at == 0
              then (0, release_all (name_at ∷ at ∷ []) k₃)
              else (let (heap_base, k₄) = take heap_size k₃ in
                  if heap_base == 0
                  then (0, release_all (heap_at ∷ name_at ∷ at ∷ []) k₄)
                  else (let (stack_at, k₅) = take 24 k₄ in
                      if stack_at == 0
                      then (0, release_all (heap_base ∷ heap_at ∷ name_at ∷ at ∷ []) k₅)
                      else (let (stack_base, k₆) = take stack_size k₅ in
                          if stack_base == 0
                          then (
                            0,
                            release_all (stack_at ∷ heap_base ∷ heap_at ∷ name_at ∷ at ∷ []) k₆,
                          )
                          else (
                            at,
                            fill_process r name at name_at heap_at heap_base stack_at stack_base pid
                                k₆,
                          ))))))

  -- `create_and_insert_process`; `none` is -1.
  unfoldable pub create_and_insert_process : Request → Kernel A.Mem → Option ℕ × Kernel A.Mem
  unfolding create_process add_new_process
  create_and_insert_process r k = elim r.name [
    | none ↦ (none, k)
    | some name ↦ elim r.entry_point [
      | none ↦ (none, k)
      | some entry ↦
          let (at, k') = create_process r name k in
          if at == 0 then (none, k') else (some (k'.procs at).pid, add_new_process A at k')
    ]
  ]

  -- `create_and_insert_process_from_current`: the parent is the current process.
  unfoldable pub create_and_insert_process_from_current :
      Request → Kernel A.Mem → Option ℕ × Kernel A.Mem
  unfolding create_and_insert_process
  create_and_insert_process_from_current r k =
      create_and_insert_process (record r { parent_pid = pos (process_at k k.current_pcb).pid }) k

  -- `add_process_to_creation_queue` of basicScheduler.c; `none` is -1.
  unfoldable pub add_process_to_creation_queue :
      Request → (name : List ℕ) → Kernel A.Mem → Option ℕ × Kernel A.Mem
  unfolding create_process create_node
  add_process_to_creation_queue r name k =
      let (at, k₁) = create_process r name k in
      if at == 0
      then (none, k₁)
      else (let (node, k₂) = create_node A at k₁ in
          elim node [
            | none ↦ (none, k₂)
            | some n ↦
                let q = insert k₂.creation_queue n in (some q.qty, record k₂ { creation_queue = q })
          ])
