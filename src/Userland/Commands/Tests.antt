-- ===== src/Userland/Commands/Tests.antt =====
-- Lines of the shell and inputs of the commands.
use boke_os.Base.{ℕ, zero, suc, ◌≡◌, refl, arith, true, List, [], ◌∷◌, replicate, get_or}
use boke_os.Base.Run.{ok}
use boke_os.Userland.Utils.{strcmp}
use boke_os.Userland.Commands.Table.{find_from}
use boke_os.Userland.Commands.Seek.{seek_command}
use boke_os.Userland.Commands.Scanning.{joined}
use boke_os.Userland.Commands.Lines.{seek_command-Words, seek_command-unknown}
use boke_os.Userland.Commands.Filters.{cat}
use boke_os.Userland.Commands.Output.{cat-lines, Ordinary, text_of, shown}
use boke_os.Userland.Commands.Counts.{}

-- The characters of a line in memory.
abbrev line : List ℕ → ℕ → ℕ
line cs i = get_or cs i 0

-- `KILL 12`
abbrev kill_12 : List ℕ
kill_12 = 75 ∷ 73 ∷ 76 ∷ 76 ∷ 32 ∷ 49 ∷ 50 ∷ []

seek_command-Words_example :
    seek_command (λ _ _. 0) 3 (line kill_12)
    ≡ ok (
        (record {
          index = 10;
          command = 75 ∷ 73 ∷ 76 ∷ 76 ∷ [];
          is_fg = true;
          argv = (49 ∷ 50 ∷ []) ∷ [];
          fd = (0, 0);
        })
        ∷ [])
unfolding joined find_from strcmp
seek_command-Words_example =
    seek_command-Words (λ _ _. 0) 3 (line kill_12) (75 ∷ 73 ∷ 76 ∷ 76 ∷ []) ((49 ∷ 50 ∷ []) ∷ []) 10
      ((refl, (refl, (refl, (refl, tt)))), omega arith, ((refl, (refl, tt)), omega arith, tt))
      (refl, (refl, (refl, (refl, (refl, (refl, (refl, (refl, tt)))))))) (omega arith) (omega arith)
      refl (omega arith)

-- `FOO WC`
abbrev foo_wc : List ℕ
foo_wc = 70 ∷ 79 ∷ 79 ∷ 32 ∷ 87 ∷ 67 ∷ []

seek_command-unknown_example :
    seek_command (λ _ _. 0) 3 (line foo_wc)
    ≡ ok
        ((record { index = 14; command = 87 ∷ 67 ∷ []; is_fg = true; argv = []; fd = (3, 0) }) ∷ [])
unfolding joined find_from strcmp
seek_command-unknown_example =
    seek_command-unknown (λ _ _. 0) 3 (line foo_wc) (70 ∷ 79 ∷ 79 ∷ []) (87 ∷ 67 ∷ []) [] 14
      ((refl, (refl, (refl, tt))), omega arith, ((refl, (refl, tt)), omega arith, tt))
      (refl, (refl, (refl, (refl, (refl, (refl, (refl, tt))))))) (omega arith) (omega arith) refl
      refl (omega arith)

cat-lines_example :
    cat (97 ∷ 10 ∷ 98 ∷ 10 ∷ 1 ∷ []) ≡ ok (97 ∷ 10 ∷ 97 ∷ 10 ∷ 10 ∷ 98 ∷ 10 ∷ 98 ∷ 10 ∷ 10 ∷ 1 ∷ [])
unfolding text_of shown
cat-lines_example = cat-lines ((97 ∷ []) ∷ (98 ∷ []) ∷ []) [] (
  ((λ e. absurd (omega arith)), (λ e. absurd (omega arith)), (λ e. absurd (omega arith)), tt),
  omega arith,
  (
    ((λ e. absurd (omega arith)), (λ e. absurd (omega arith)), (λ e. absurd (omega arith)), tt),
    omega arith,
    tt,
  ),
)

many-Ordinary : (n : ℕ) → Ordinary (replicate n 97)
many-Ordinary zero = tt
many-Ordinary (suc n) = (
  (λ e. absurd (omega arith)),
  (λ e. absurd (omega arith)),
  (λ e. absurd (omega arith)),
  many-Ordinary n,
)
