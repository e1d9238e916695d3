-- ===== src/Process/Tests.antt =====
-- Kernel/process.c at a small kernel whose processes are children of the process 1.
use boke_os.Base.{◌≡◌, ◌≢◌, refl, true, arith, some}
use boke_os.Kernel.{dead, process_at}
use boke_os.Kernel.Example.{bump, sample}
use boke_os.Scheduler.Search.{get_pcb_entry, find_pid_from, find_pid}
use boke_os.Scheduler.Blocking.{reassign_children_to_shell}
use boke_os.Process.Kill.{force_kill}
use boke_os.Process.Orphans.{NoChild, reassign_children_to_shell-NoChild}
use boke_os.Process.Removing.{Queued}
use boke_os.Process.Killed.{force_kill-dead}

reassign_children_to_shell-NoChild_example :
    NoChild 1
      (reassign_children_to_shell 1 sample)
      ((reassign_children_to_shell 1 sample).scheduler 2).queue.nodes
reassign_children_to_shell-NoChild_example =
    reassign_children_to_shell-NoChild 1 sample 2 (omega arith) (omega arith)

found_4 : get_pcb_entry sample 4 ≡ some 4
unfolding get_pcb_entry find_pid_from find_pid
found_4 = refl

force_kill-dead_example :
    ((force_kill bump 4 sample).0 ≡ true)
    × ((process_at (force_kill bump 4 sample).1 4).status ≡ dead)
    × ((force_kill bump 4 sample).1.foreground_pid ≢ 4)
    × NoChild 4 (force_kill bump 4 sample).1 ((force_kill bump 4 sample).1.scheduler 2).queue.nodes
    × Queued bump 4 sample (force_kill bump 4 sample).1
force_kill-dead_example =
    force_kill-dead bump sample 4 4 2 found_4 (omega arith) (omega arith) (omega arith)
