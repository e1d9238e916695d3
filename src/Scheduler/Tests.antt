-- ===== src/Scheduler/Tests.antt =====
-- The theorems on basicScheduler.c at small kernels.
use boke_os.Base.{ℕ, suc, ◌≤◌, ◌<◌, ◌≡◌, refl, ◌==◌, if◌then◌else◌, length, arith}
use mathlib.Core.Path.{subst}
use boke_os.Base.Run.{ok, out_of_fuel}
use boke_os.Kernel.{Status, blocked, ready, running, zombie}
use boke_os.Kernel.Example.{sample, kernel_with, usual, node_of}
use boke_os.Scheduler.Search.{find_next_process, take}
use boke_os.Scheduler.Choice.{find_next_process-highest, find_next_process-Stuck, Passed, ring}

-- No ring has more than two nodes.
short : (st : ℕ → Status) (j : ℕ) → length (ring (kernel_with st) j) ≤ 2
short st j = ground arith

highest-Passed : (j : ℕ) → 1 < j → j < 3 → Passed sample (suc j)
highest-Passed j h k =
    let e : ◌≡◌ {A = ℕ} 2 j = omega arith in subst (λ i. Passed sample (suc i)) e (refl, λ q. cc)

find_next_process-highest_example : find_next_process 2 sample ≡ ok (4, take sample 2 4 14)
find_next_process-highest_example =
    find_next_process-highest sample 2 (short usual) 1 (node_of 4) (omega arith) highest-Passed refl

-- The process 4 runs, and nobody is READY but the idle process.
abbrev one_running : ℕ → Status
one_running a = if a == 4 then running else if a == 3 then ready else blocked

-- The shell is a ZOMBIE.
abbrev shell_zombie : ℕ → Status
shell_zombie a = if a == 2 then zombie else ready

find_next_process-Stuck_example : find_next_process 1000 (kernel_with shell_zombie) ≡ out_of_fuel
find_next_process-Stuck_example =
    find_next_process-Stuck (kernel_with shell_zombie) 1000 2 (omega arith)
      (λ j h k. absurd (omega arith)) (refl, refl)
