-- ===== src/Semaphore/Spaces.antt =====
-- Kernel/semaphore.c: the table of semaphores, and opening and closing them.
-- An identifier is a list of the characters before the terminator; by `Strings.Laws.strcmp-eq` a
-- `strcmp` of two strings is 0 exactly when the lists are equal.
use boke_os.Base.{
  ℕ, zero, suc, ◌+◌, ◌-◌, Bool, true, false, not, ◌&&◌, ◌||◌, Option, none, some, List, [], ◌∷◌,
  ◌==◌, ltb, if◌then◌else◌, update, take,
}
use boke_os.Queue.{Node}
use boke_os.Kernel.{Kernel, Space, Allocator, release}
use boke_os.Scheduler.Search.{current_process_id}

-- `MAX_SEMS` and `MAX_PROCESSES`
abbrev pub max_sems : ℕ
max_sems = 128

abbrev pub max_processes : ℕ
max_processes = 1024

abbrev pub same_id : List ℕ → List ℕ → Bool
same_id [] [] = true
same_id [] (d ∷ ds) = false
same_id (c ∷ cs) [] = false
same_id (c ∷ cs) (d ∷ ds) = (c == d) && same_id cs ds

-- `allowed_processes[i] == pid`, where `none` is -1 on both sides.
abbrev pub same_pid : Option ℕ → Option ℕ → Bool
same_pid none none = true
same_pid none (some b) = false
same_pid (some a) none = false
same_pid (some a) (some b) = a == b

abbrev pub keyboard : List ℕ
keyboard = b'k' ∷ b'e' ∷ b'y' ∷ b'b' ∷ b'o' ∷ b'a' ∷ b'r' ∷ b'd' ∷ []

-- The loop of `locate_sem`, with the rounds that are left; `none` is -1.
unfoldable pub locate_from : (ℕ → Space) → List ℕ → (rounds i : ℕ) → Option ℕ
locate_from spaces id zero i = none
locate_from spaces id (suc r) i =
    let rest = locate_from spaces id r (i + 1) in
    if not (spaces i).available && same_id (spaces i).identifier id then some i else rest

-- The search of `my_sem_open` for an AVAILABLE space.
unfoldable pub available_from : (ℕ → Space) → (rounds i : ℕ) → Option ℕ
available_from spaces zero i = none
available_from spaces (suc r) i =
    let rest = available_from spaces r (i + 1) in if (spaces i).available then some i else rest

-- The space that `my_sem_open` fills in. `identifier` has 15 bytes and one of padding: the NULL that is
-- then written to `head` ends the name behind its first 16 characters. The model is of names of up to 31
-- characters; a longer one also writes over the lock.
abbrev pub fresh_space : Space → (start_value : ℕ) → List ℕ → Option ℕ → Space
fresh_space s start id pid = record s {
  available = false;
  identifier = take 16 id;
  waiters = [];
  is_locked = if ltb 0 start then 1 else 0;
  counter = start;
  queue_size = 0;
  allowed_processes = update s.allowed_processes 0 pid;
  allowed_process_count = 1;
  being_cleared = false;
}

-- The loop of `my_sem_close` from `i` on, with the rounds that are left. The count falls with each
-- entry that is taken out, and the loop compares with the count.
unfoldable pub disallow : Option ℕ → (rounds i : ℕ) → Space → Space
disallow pid zero i s = s
disallow pid (suc r) i s =
    let s' = record s {
      allowed_processes = update s.allowed_processes i none;
      allowed_process_count = s.allowed_process_count - 1;
    } in
    let hit = same_pid (s.allowed_processes i) pid in
    let rest = disallow pid r (i + 1) (if hit then s' else s) in
    if ltb i s.allowed_process_count then rest else s

-- The loop of `my_sem_wait` over the allowed processes.
unfoldable pub is_allowed : Space → Option ℕ → (rounds i : ℕ) → Bool
is_allowed s pid zero i = false
is_allowed s pid (suc r) i =
    let rest = is_allowed s pid r (i + 1) in same_pid (s.allowed_processes i) pid || rest

module _ {Mem : Type 0} where
  abbrev pub set_space : ℕ → Space → Kernel Mem → Kernel Mem
  set_space i s k = record k { sem_spaces = update k.sem_spaces i s }

  -- `initialize_sems`: the first `n` spaces.
  unfoldable pub initialize_sems : ℕ → Kernel Mem → Kernel Mem
  initialize_sems zero k = k
  initialize_sems (suc n) k =
      let s = k.sem_spaces n in
      initialize_sems n (
        set_space n
          (record s {
            available = true;
            allowed_processes = λ j. if ltb j max_processes then none else s.allowed_processes j;
            allowed_process_count = 0;
          })
          k)

  -- `init_keyboard_sem`. The loop also writes `allowed_processes[MAX_PROCESSES]`, which is
  -- `allowed_process_count` and has that value already.
  unfoldable pub init_keyboard_sem : Kernel Mem → Kernel Mem
  init_keyboard_sem k =
      let s = k.sem_spaces 0 in
      set_space 0
        (record s {
          available = false;
          identifier = keyboard;
          waiters = [];
          is_locked = 0;
          counter = 1;
          queue_size = 0;
          allowed_processes =
              λ j. if ltb 0 j && ltb j max_processes then some j else s.allowed_processes j;
          allowed_process_count = max_processes;
          being_cleared = false;
        })
        k

  unfoldable pub locate_sem : List ℕ → Kernel Mem → Option ℕ
  unfolding locate_from
  locate_sem id k = locate_from k.sem_spaces id max_sems 0

  -- `my_sem_open`: the index, `none` for -1.
  unfoldable pub my_sem_open : (start_value : ℕ) → List ℕ → Kernel Mem → Option ℕ × Kernel Mem
  unfolding locate_sem available_from current_process_id
  my_sem_open start id k = elim (locate_sem id k) [
    | some i ↦
        let s = k.sem_spaces i in
        (
          some i,
          set_space i
              (record s {
                allowed_processes =
                    update s.allowed_processes s.allowed_process_count (current_process_id k);
                allowed_process_count = s.allowed_process_count + 1;
              })
              k,
        )
    | none ↦ elim (available_from k.sem_spaces max_sems 0) [
      | none ↦ (none, k)
      | some i ↦
          (some i, set_space i (fresh_space (k.sem_spaces i) start id (current_process_id k)) k)
    ]
  ]

module _ (A : Allocator) where
  -- `free(node)` for each node that waits.
  unfoldable pub free_nodes : List Node → Kernel A.Mem → Kernel A.Mem
  free_nodes [] k = k
  free_nodes (n ∷ ns) k = free_nodes ns (release A n.addr k)

  -- `clear_sem`: `true` for 0 and `false` for -1. Its last loop writes 1024 zeros from `identifier`,
  -- which has 15 bytes: they reach over the fields behind it to `allowed_processes[241]`.
  unfoldable pub clear_sem : List ℕ → Kernel A.Mem → Bool × Kernel A.Mem
  unfolding locate_sem free_nodes
  clear_sem id k = elim (locate_sem id k) [
    | none ↦ (false, k)
    | some i ↦
        let s = k.sem_spaces i in
        if s.being_cleared then (false, k) else (
          true,
          set_space i
              (record s {
                available = true;
                identifier = [];
                waiters = [];
                is_locked = 0;
                counter = 0;
                queue_size = 0;
                allowed_processes = λ j.
                    if ltb j 242 || ltb j s.allowed_process_count
                    then some 0
                    else s.allowed_processes j;
                allowed_process_count = 0;
                being_cleared = true;
              })
              (free_nodes s.waiters k),
        )
  ]

  unfoldable pub my_sem_close : List ℕ → Kernel A.Mem → Kernel A.Mem
  unfolding disallow clear_sem
  my_sem_close id k = elim (locate_sem id k) [
    | none ↦ k
    | some i ↦
        let s = k.sem_spaces i in
        let s' = disallow (current_process_id k) s.allowed_process_count 0 s in
        let k' = set_space i s' k in
        if s'.allowed_process_count == 0 then (clear_sem id k').1 else k'
  ]
