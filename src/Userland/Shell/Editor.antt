-- ===== src/Userland/Shell/Editor.antt =====
-- `bufferize` against an editor of lists.
use boke_os.Base.{
  ℕ, zero, suc, ◌+◌, ◌-◌, ◌≤◌, ◌<◌, ◌≢◌, ◌≡◌, refl, sym, ap, ◌∙◌, length-append, ap₂, inl, inr,
  Bool-cases, arith, true, false, List, [], ◌∷◌, ◌++◌, ltb, ◌==◌, if◌then◌else◌, update, length,
}
use mathlib.Core.Path.{subst}
use native.Mathlib.Decide.{ℕ_discrete}
use boke_os.Userland.Shell.{Typed, waiting, blank, submitted, bufferize}

-- A line without its last character.
unfoldable pub drop_last : List ℕ → List ℕ
drop_last [] = []
drop_last (c ∷ []) = []
drop_last (c ∷ d ∷ ds) = c ∷ drop_last (d ∷ ds)

-- The line that is being typed after the keys: a backspace takes the last character away, another
-- character comes to the end while there are fewer than 127.
unfoldable pub edit : List ℕ → ℕ → List ℕ
edit line c = if c == 8 then drop_last line else if length line == 127 then line else line ++ c ∷ []

-- What a terminal shows of the characters that it gets.
unfoldable pub type_one : List ℕ → ℕ → List ℕ
type_one line c = if c == 8 then drop_last line else line ++ c ∷ []

unfoldable pub show : List ℕ → List ℕ → List ℕ
show line [] = line
show line (c ∷ cs) = show (type_one line c) cs

-- How the editor of lists ends.
pub data Edited : Type 0 where
  editing : List ℕ → Edited
  nothing : Edited
  entered : List ℕ → Edited

unfoldable pub edit_all : List ℕ → List ℕ → Edited
edit_all line [] = editing line
edit_all line (c ∷ cs) =
    let rest = edit_all (edit line c) cs in
    if c == 10 then (if length line == 0 then nothing else entered line) else rest

-- The first `n` cells.
unfoldable pub cells : (ℕ → ℕ) → ℕ → List ℕ
cells b zero = []
cells b (suc n) = cells b n ++ b n ∷ []

length-cells : (b : ℕ → ℕ) (n : ℕ) → length (cells b n) ≡ n
unfolding cells
length-cells b zero = refl
length-cells b (suc n) = omega (arith, length-append (cells b n) (b n ∷ []), length-cells b n)

cells-update : (b : ℕ → ℕ) (i v n : ℕ) → n ≤ i → cells (update b i v) n ≡ cells b n
unfolding cells
cells-update b i v zero h = refl
cells-update b i v (suc n) h =
    ap₂ (λ x y. x ++ y ∷ []) (cells-update b i v n (omega arith)) (ground arith)

drop_last-snoc : (line : List ℕ) (c : ℕ) → drop_last (line ++ c ∷ []) ≡ line
unfolding drop_last
drop_last-snoc [] c = refl
drop_last-snoc (d ∷ []) c = refl
drop_last-snoc (d ∷ e ∷ ds) c = ap (◌∷◌ d) (drop_last-snoc (e ∷ ds) c)

-- What `bufferize` returns, told by the cells up to a number of characters.
pub data Agrees : Typed → Edited → Type 0 where
  still : {echo line : List ℕ} → show [] echo ≡ line → Agrees (waiting echo) (editing line)
  none_typed : {echo : List ℕ} {b : ℕ → ℕ} → show [] echo ≡ 10 ∷ [] → Agrees (blank echo b) nothing
  handed_over :
      {echo line : List ℕ} {b : ℕ → ℕ}
      → cells b (length line) ≡ line
      → b (length line) ≡ 0
      → length line < 128
      → show [] echo ≡ line ++ 10 ∷ []
      → Agrees (submitted echo b) (entered line)

show-snoc : (cs line : List ℕ) (c : ℕ) → show line (cs ++ c ∷ []) ≡ type_one (show line cs) c
unfolding show
show-snoc [] line c = refl
show-snoc (d ∷ ds) line c = show-snoc ds (type_one line d) c

-- One more character that is echoed.
show-echo :
    (echo line : List ℕ) (c : ℕ)
    → c ≢ 8
    → show [] echo ≡ line
    → show [] (echo ++ c ∷ []) ≡ line ++ c ∷ []
unfolding type_one
show-echo echo line c n e =
    let other : (c == 8) ≡ false = ground arith in show-snoc echo [] c ∙ rw (other, e) refl

abbrev Follows : List ℕ → Type 0
Follows cs =
    (i : ℕ) (b : ℕ → ℕ) (echo : List ℕ)
    → i < 128
    → show [] echo ≡ cells b i
    → Agrees (bufferize cs i b echo) (edit_all (cells b i) cs)

wait-Follows : Follows []
unfolding bufferize edit_all
wait-Follows i b echo h e = let room : ltb i 128 ≡ true = ground arith in rw room (still e)

-- A backspace.
erase-Follows : (cs : List ℕ) → Follows cs → Follows (8 ∷ cs)
unfolding bufferize edit_all edit drop_last cells type_one
erase-Follows cs rest zero b echo h e = rest zero b echo h e
erase-Follows cs rest (suc i) b echo h e =
    let room : ltb (suc i) 128 ≡ true = ground arith in
    let more : ltb 0 (suc i) ≡ true = ground arith in
    let back : drop_last (cells b i ++ b i ∷ []) ≡ cells b i = drop_last-snoc (cells b i) (b i) in
    let prev : suc i - 1 ≡ i = omega arith in
    rw (room, more, back, prev)
      (rest i b (echo ++ 8 ∷ []) (omega arith) (show-snoc echo [] 8 ∙ ap drop_last e ∙ back))

-- The end of the line.
enter-Follows : (cs : List ℕ) → Follows (10 ∷ cs)
unfolding bufferize edit_all
enter-Follows cs zero b echo h e =
    let nothing_yet : cells b 0 ≡ [] = unfold cells in refl in
    rw nothing_yet (none_typed (show-echo echo [] 10 (λ e. absurd (omega arith)) (e ∙ nothing_yet)))
enter-Follows cs (suc i) b echo h e =
    let room : ltb (suc i) 128 ≡ true = ground arith in
    let typed : (suc i == 0) ≡ false = ground arith in
    let len = length-cells b (suc i) in
    let shown = show-echo echo (cells b (suc i)) 10 (λ e. absurd (omega arith)) e in
    rw (room, typed, len, typed)
      (handed_over (rw len (cells-update b (suc i) 0 (suc i) (omega arith))) (rw len (ground arith))
        (omega (arith, len)) shown)

-- Any other character.
store-Follows : (c : ℕ) (cs : List ℕ) → c ≢ 8 → c ≢ 10 → Follows cs → Follows (c ∷ cs)
unfolding bufferize edit_all edit cells
store-Follows c cs n8 n10 rest i b echo h e =
    let room : ltb i 128 ≡ true = ground arith in
    let x : (c == 8) ≡ false = ground arith in
    let y : (c == 10) ≡ false = ground arith in
    rw (room, x, y, length-cells b i)
      (elim (Bool-cases (i == 127)) [
        | inl z ↦ rw z (rest i b echo h e)
        | inr z ↦
            let next : i + 1 ≡ suc i = omega arith in
            let same = cells-update b i c i (omega arith) in
            let here : update b i c i ≡ c = ground arith in
            let after : cells (update b i c) (suc i) ≡ cells b i ++ c ∷ [] = rw (same, here) refl in
            let shown = show-echo echo (cells b i) c n8 e in
            rw (z, next)
              (subst
                (λ l. Agrees (bufferize cs (suc i) (update b i c) (echo ++ c ∷ [])) (edit_all l cs))
                after
                (rest (suc i) (update b i c) (echo ++ c ∷ []) (ground arith) (shown ∙ sym after)))
      ])

-- Whatever is typed, the shell's editor does what an editor of lists does: it waits with the same
-- line, or ends with no line, or hands over a buffer that holds the line and a zero behind it,
-- within its 128 cells; and what was echoed shows as that line, with the end of the line behind it.
pub bufferize-edit_all : (cs : List ℕ) (b : ℕ → ℕ) → Agrees (bufferize cs 0 b []) (edit_all [] cs)
bufferize-edit_all cs b = unfold cells show in all cs 0 b [] (omega arith) refl
  where
    all : (ds : List ℕ) → Follows ds
    all [] = wait-Follows
    all (d ∷ ds) = elim (ℕ_discrete d 8) [
      | yes e ↦ subst (λ x. Follows (x ∷ ds)) (sym e) (erase-Follows ds (all ds))
      | no n8 ↦ elim (ℕ_discrete d 10) [
        | yes e ↦ subst (λ x. Follows (x ∷ ds)) (sym e) (enter-Follows ds)
        | no n10 ↦ store-Follows d ds n8 n10 (all ds)
      ]
    ]
