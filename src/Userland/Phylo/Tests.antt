-- ===== src/Userland/Phylo/Tests.antt =====
-- A table of Userland/SampleCodeModule/phylo.c: one with five philosophers, of whom two eat.
use boke_os.Base.{◌-◌, ◌≡◌, refl, ◌==◌, if◌then◌else◌, arith}
use boke_os.Userland.Phylo.{
  thinking, eating, thinks, eats, Table, left, right, take_forks, put_forks, remove_philosopher,
}
use boke_os.Userland.Phylo.Settled.{IsSettled, take_forks-put_forks-IsSettled}
use boke_os.Userland.Phylo.Meals.{remove_philosopher-clash}

abbrev five : Table
five = record {
  num_philosophers = 5;
  fork_states = λ i. if i == 0 then eating else if i == 3 then eating else thinking;
  fork_locks = λ i. if i == 1 then 1 else 0;
  r_w_lock = 0;
  phases = λ i. if i == 0 then eats else if i == 3 then eats else thinks;
}

five-IsSettled : IsSettled five
unfolding left right
five-IsSettled = record { apart = λ i h. ground arith; busy = λ i h. ground arith }

take_forks-put_forks-IsSettled_example :
    IsSettled (take_forks 1 five) × IsSettled (put_forks 3 five)
take_forks-put_forks-IsSettled_example =
    take_forks-put_forks-IsSettled 1 3 five (omega arith) (omega arith) (omega arith) five-IsSettled

remove_philosopher-clash_example :
    (right
        (remove_philosopher five).num_philosophers
        ((remove_philosopher five).num_philosophers - 1)
      ≡ 0)
    × ((remove_philosopher five).fork_states ((remove_philosopher five).num_philosophers - 1)
        ≡ eating)
    × ((remove_philosopher five).fork_states 0 ≡ eating)
remove_philosopher-clash_example = remove_philosopher-clash five (omega arith) refl refl refl
