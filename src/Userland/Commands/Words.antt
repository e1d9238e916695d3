-- ===== src/Userland/Commands/Words.antt =====
-- The first loop of `__seek_command__`: the words of the line go into the rows of `args`. A write
-- outside the ten rows of ten bytes is `fault`.
use boke_os.Base.{ℕ, zero, suc, ◌+◌, Bool, false, ◌&&◌, List, [], ◌∷◌, ltb, ◌==◌, if◌then◌else◌}
use boke_os.Base.Run.{Run, ok, fault, out_of_fuel, ◌>>=◌}
use boke_os.Userland.Commands.Table.{command_len, args_len, command_size}

-- The loop's variables. `args` holds at first what `user_malloc` left there.
pub record Scan : Type 0 where
  pub args : ℕ → ℕ → ℕ
  pub w : ℕ
  pub j : ℕ
  pub end_first_com : ℕ
  pub is_fg1 : Bool

-- `args[w][j] = c`
unfoldable pub write_arg : Scan → ℕ → Run Scan
write_arg s c =
    if ltb s.w args_len && ltb s.j command_size
    then ok (record s { args = λ w j. if w == s.w && j == s.j then c else s.args w j })
    else fault

-- The loop from `command[i]` on, with the rounds that are left.
unfoldable pub scan : ℕ → (command : ℕ → ℕ) → (i : ℕ) → Scan → Run Scan
scan zero command i s = out_of_fuel
scan (suc rounds) command i s =
    let c = command i in
    let next = scan rounds command in
    if ltb i command_len
    then (write_arg s c >>= λ s'.
        if c == b' '
        then (write_arg s' 0 >>= λ s''. next (i + 1) (record s'' { j = 0; w = s.w + 1 }))
        else if c == 0
        then ok (record s' { j = s.j + 1; w = s.w + 1 })
        else if c == b'|'
        then (let piped = record s' { end_first_com = s.w; j = 0; is_fg1 = false } in
            if command (i + 1) == b'&' then ok piped else next (i + 2) piped)
        else if c == b'&'
        then ok (record s' { j = s.j + 1; is_fg1 = false })
        else next (i + 1) (record s' { j = s.j + 1 }))
    else ok s

-- The characters of a row before its first zero, at most all ten.
unfoldable pub row_from : ℕ → (ℕ → ℕ) → ℕ → List ℕ
row_from zero row j = []
row_from (suc cells) row j =
    let rest = row_from cells row (j + 1) in if row j == 0 then [] else row j ∷ rest

unfoldable pub row_string : (ℕ → ℕ) → List ℕ
row_string row = row_from command_size row 0
