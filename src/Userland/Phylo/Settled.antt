-- ===== src/Userland/Phylo/Settled.antt =====
-- What a run of `take_forks` or of `put_forks` in Userland/SampleCodeModule/phylo.c keeps.
use boke_os.Base.{ℕ, ◌<◌, ◌≢◌, sym}
use mathlib.Core.Path.{subst}
use boke_os.Userland.Phylo.{eating, Table, take_forks, put_forks}
use boke_os.Userland.Phylo.Ring.{take_forks-same, put_forks-same}
use boke_os.Userland.Phylo.Neighbours.{
  NoNeighbours, take_forks-NoNeighbours, put_forks-NoNeighbours,
}
use boke_os.Userland.Phylo.Hungry.{HungryWait, take_forks-HungryWait, put_forks-HungryWait}

-- No two neighbours have the state EATING, and who is HUNGRY has a neighbour with it.
pub record IsSettled (t : Table) : Type 0 where
  pub apart : NoNeighbours t.num_philosophers t.fork_states
  pub busy : HungryWait t

-- When no two neighbours have the state EATING and whoever is HUNGRY has a neighbour with it, both also
-- hold behind `take_forks` of a philosopher that does not have the state EATING, and behind `put_forks`
-- of any philosopher, if no other process runs between the lines of the call.
pub take_forks-put_forks-IsSettled :
    (i j : ℕ) (t : Table)
    → i < t.num_philosophers
    → j < t.num_philosophers
    → t.fork_states i ≢ eating
    → IsSettled t
    → IsSettled (take_forks i t) × IsSettled (put_forks j t)
take_forks-put_forks-IsSettled i j t h k other inv = (
  record {
    apart =
        subst (λ m. NoNeighbours m (take_forks i t).fork_states) (sym (take_forks-same i t))
          (take_forks-NoNeighbours i t h inv.apart);
    busy = take_forks-HungryWait i t other inv.busy;
  },
  record {
    apart =
        subst (λ m. NoNeighbours m (put_forks j t).fork_states) (sym (put_forks-same j t))
          (put_forks-NoNeighbours j t k inv.apart);
    busy = put_forks-HungryWait j t k inv.busy;
  },
)
