-- ===== src/Userland/Commands/Table.antt =====
-- The names of the commands and the numbers of their arguments.
use boke_os.Base.{ℕ, ◌+◌, Bool, false, Option, none, some, List, [], ◌∷◌, ◌==◌, if◌then◌else◌}
use boke_os.Base.Int.{ℤ, pos, negsuc}
use boke_os.Userland.Utils.{strcmp}

-- `COMMAND_LEN`, `START_SIZE / 8` and `COMMAND_SIZE`
abbrev pub command_len : ℕ
command_len = 20

abbrev pub args_len : ℕ
args_len = 10

abbrev pub command_size : ℕ
command_size = 10

-- `command_list`
abbrev pub command_list : List (List ℕ)
command_list =
    (b'H' ∷ b'E' ∷ b'L' ∷ b'P' ∷ [])
    ∷ (b'T' ∷ b'I' ∷ b'M' ∷ b'E' ∷ [])
    ∷ (b'R' ∷ b'E' ∷ b'G' ∷ b'S' ∷ b'T' ∷ b'A' ∷ b'T' ∷ b'E' ∷ [])
    ∷ (b'P' ∷ b'O' ∷ b'N' ∷ b'G' ∷ [])
    ∷ (b'S' ∷ b'E' ∷ b'T' ∷ b'C' ∷ b'O' ∷ b'L' ∷ b'O' ∷ b'R' ∷ [])
    ∷ (b'D' ∷ b'I' ∷ b'V' ∷ b'0' ∷ [])
    ∷ (b'I' ∷ b'N' ∷ b'V' ∷ b'A' ∷ b'L' ∷ b'O' ∷ b'P' ∷ [])
    ∷ (b'B' ∷ b'O' ∷ b'K' ∷ b'E' ∷ [])
    ∷ (b'P' ∷ b'S' ∷ [])
    ∷ (b'M' ∷ b'E' ∷ b'M' ∷ [])
    ∷ (b'K' ∷ b'I' ∷ b'L' ∷ b'L' ∷ [])
    ∷ (b'N' ∷ b'I' ∷ b'C' ∷ b'E' ∷ [])
    ∷ (b'B' ∷ b'L' ∷ b'O' ∷ b'C' ∷ b'K' ∷ [])
    ∷ (b'C' ∷ b'A' ∷ b'T' ∷ [])
    ∷ (b'W' ∷ b'C' ∷ [])
    ∷ (b'P' ∷ b'H' ∷ b'Y' ∷ b'L' ∷ b'O' ∷ [])
    ∷ (b'F' ∷ b'I' ∷ b'L' ∷ b'T' ∷ b'E' ∷ b'R' ∷ [])
    ∷ (b'L' ∷ b'O' ∷ b'O' ∷ b'P' ∷ [])
    ∷ (b'T' ∷ b'E' ∷ b'S' ∷ b'T' ∷ b'S' ∷ [])
    ∷ (b'C' ∷ b'L' ∷ b'E' ∷ b'A' ∷ b'R' ∷ [])
    ∷ []

-- `command_args`
abbrev pub command_args : List ℕ
command_args = 0 ∷ 0 ∷ 0 ∷ 0 ∷ 1 ∷ 0 ∷ 0 ∷ 0 ∷ 0 ∷ 0 ∷ 1 ∷ 2 ∷ 1 ∷ 0 ∷ 0 ∷ 0 ∷ 0 ∷ 0 ∷ 0 ∷ 0 ∷ []

abbrev pub is_zero : ℤ → Bool
is_zero (pos n) = n == 0
is_zero (negsuc n) = false

-- The search for the first name, from the index `i` on, that `strcmp` finds equal.
unfoldable pub find_from : List (List ℕ) → ℕ → List ℕ → Option ℕ
find_from [] i word = none
find_from (name ∷ names) i word =
    let rest = find_from names (i + 1) word in if is_zero (strcmp name word) then some i else rest
