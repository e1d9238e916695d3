-- ===== src/Userland/Commands/Scanning.antt =====
-- The scan of a line of words puts each word into a row of its own.
use boke_os.Base.{
  ℕ, suc, ◌+◌, ◌-◌, ◌≤◌, ◌<◌, ◌≡◌, refl, ap, ◌∙◌, arith, true, false, ◌&&◌, List, [], ◌∷◌, ◌++◌,
  ltb, ◌==◌, length, length-append,
}
use boke_os.Base.Run.{ok, Returns, returns, Returns-weaken}
use boke_os.Userland.Commands.Words.{Scan, write_arg, scan, row_string}
use boke_os.Userland.Commands.Rows.{
  AllPlain, At, put, put-row, fill, fill-row, fill-At, row_from-At, AllPlain-NonZero, At-same,
}

-- A word of the line.
scan-word :
    (cs : List ℕ) (r : ℕ) (command : ℕ → ℕ) (i : ℕ) (s : Scan)
    → AllPlain cs
    → At command i cs
    → s.w < 10
    → s.j + length cs ≤ 10
    → i + length cs ≤ 20
    → scan (length cs + r) command i s
      ≡ scan r command
          (i + length cs)
          (record s { args = fill s.args s.w s.j cs; j = s.j + length cs })
unfolding scan write_arg fill
scan-word [] r command i s p a hw hj hi =
    let x : i + 0 ≡ i = omega arith in
    let y : s.j + 0 ≡ s.j = omega arith in let z : 0 + r ≡ r = omega arith in rw (x, y, z) refl
scan-word (c ∷ cs) r command i s p a hw hj hi =
    let count : suc (length cs) + r ≡ suc (length cs + r) = omega arith in
    let room : ltb i 20 ≡ true = ground arith in
    let inside : (ltb s.w 10 && ltb s.j 10) ≡ true = ground arith in
    let x : (c == 32) ≡ false = ground (arith, p.0) in
    let y : (c == 0) ≡ false = ground (arith, p.0) in
    let z : (c == 124) ≡ false = ground (arith, p.0) in
    let u : (c == 38) ≡ false = ground (arith, p.0) in
    let rest =
      scan-word cs r command (i + 1) (record s { args = put s.args s.w s.j c; j = s.j + 1 }) p.1 a.1
        hw (omega arith) (omega arith) in
    let m : i + 1 + length cs ≡ i + suc (length cs) = omega arith in
    let n : s.j + 1 + length cs ≡ s.j + suc (length cs) = omega arith in
    rw (count, room, a.0, inside, x, y, z, u) (rw (m, n) at rest)

-- The words of a line, with one space between them and a zero behind the last.
unfoldable pub joined : List ℕ → List (List ℕ) → List ℕ
joined x [] = x ++ 0 ∷ []
joined x (y ∷ ys) = x ++ 32 ∷ joined y ys

-- The words fit into the rows, and hold no special character.
abbrev pub Words : List (List ℕ) → Type 0
Words [] = Unit
Words (x ∷ xs) = AllPlain x × (length x < 10) × Words xs

abbrev pub Rows : (ℕ → ℕ → ℕ) → ℕ → List (List ℕ) → Type 0
Rows args w [] = Unit
Rows args w (x ∷ xs) = (row_string (args w) ≡ x) × Rows args (w + 1) xs

At-split :
    (command : ℕ → ℕ) (i : ℕ) (xs ys : List ℕ)
    → At command i (xs ++ ys)
    → At command i xs × At command (i + length xs) ys
At-split command i [] ys a = let e : i + 0 ≡ i = omega arith in (tt, rw e a)
At-split command i (x ∷ xs) ys a =
    let (b, c) = At-split command (i + 1) xs ys a.1 in
    let e : i + 1 + length xs ≡ i + suc (length xs) = omega arith in ((a.0, b), rw e at c)

-- The row of a word that has been scanned and ended.
ended-row :
    (args : ℕ → ℕ → ℕ) (w : ℕ) (cs : List ℕ) (row : ℕ → ℕ)
    → AllPlain cs
    → length cs < 10
    → ((k : ℕ) → k < length cs → row k ≡ fill args w 0 cs w k)
    → row (length cs) ≡ 0
    → row_string row ≡ cs
unfolding row_string
ended-row args w cs row p l same z =
    let e : 0 + length cs ≡ length cs = omega arith in
    row_from-At 10 row 0 cs (AllPlain-NonZero cs p)
      (At-same _ row 0 cs (λ k m. same k (omega (arith, m))) (fill-At args w 0 cs)) (ap row e ∙ z) l

scan-space :
    (r : ℕ) (command : ℕ → ℕ) (i : ℕ) (s : Scan)
    → command i ≡ 32
    → s.w < 10
    → s.j < 10
    → i < 20
    → scan (suc r) command i s
      ≡ scan r command
          (i + 1)
          (record s { args = put (put s.args s.w s.j 32) s.w s.j 0; j = 0; w = s.w + 1 })
unfolding scan write_arg
scan-space r command i s e hw hj hi =
    let room : ltb i 20 ≡ true = ground arith in
    let inside : (ltb s.w 10 && ltb s.j 10) ≡ true = ground arith in
    rw (room, e, inside, inside) refl

scan-end :
    (r : ℕ) (command : ℕ → ℕ) (i : ℕ) (s : Scan)
    → command i ≡ 0
    → s.w < 10
    → s.j < 10
    → i < 20
    → scan (suc r) command i s
      ≡ ok (record s { args = put s.args s.w s.j 0; j = s.j + 1; w = s.w + 1 })
unfolding scan write_arg
scan-end r command i s e hw hj hi =
    let room : ltb i 20 ≡ true = ground arith in
    let inside : (ltb s.w 10 && ltb s.j 10) ≡ true = ground arith in rw (room, e, inside) refl

last-row :
    (args : ℕ → ℕ → ℕ) (w j : ℕ) (x : List ℕ)
    → AllPlain x
    → length x < 10
    → j ≡ 0
    → row_string (put (fill args w j x) w (j + length x) 0 w) ≡ x
last-row args w j x p l e =
    let n : 0 + length x ≡ length x = omega arith in
    rw (e, n) (ended-row args w x _ p l (λ k m. ground (arith, m)) (ground arith))

earlier-last :
    (args : ℕ → ℕ → ℕ) (w j : ℕ) (x : List ℕ) (k c v : ℕ)
    → v < w
    → put (fill args w j x) w k c v ≡ args v
earlier-last args w j x k c v m =
    put-row (fill args w j x) w k c v (λ e. absurd (omega arith))
    ∙ fill-row args w j x v (λ e. absurd (omega arith))

space-row :
    (args : ℕ → ℕ → ℕ) (w j : ℕ) (x : List ℕ)
    → AllPlain x
    → length x < 10
    → j ≡ 0
    → row_string (put (put (fill args w j x) w (j + length x) 32) w (j + length x) 0 w) ≡ x
space-row args w j x p l e =
    let n : 0 + length x ≡ length x = omega arith in
    rw (e, n) (ended-row args w x _ p l (λ k m. ground (arith, m)) (ground arith))

abbrev Scanned : Scan → List (List ℕ) → Scan → Type 0
Scanned s words s' =
    Rows s'.args s.w words
    × (s'.end_first_com ≡ s.end_first_com)
    × (s'.is_fg1 ≡ s.is_fg1)
    × ((v : ℕ) → v < s.w → s'.args v ≡ s.args v)

scan-last :
    (x : List ℕ) (r : ℕ) (command : ℕ → ℕ) (i : ℕ) (s : Scan)
    → AllPlain x
    → length x < 10
    → At command i (x ++ 0 ∷ [])
    → s.w < 10
    → s.j ≡ 0
    → i + length x < 20
    → length x < r
    → Returns (Scanned s (x ∷ [])) (scan r command i s)
scan-last x r command i s p l a hw hj hi hr =
    let e : r ≡ length x + suc (r - length x - 1) = omega arith in
    let (b, c) = At-split command i x (0 ∷ []) a in
    let first =
      scan-word x (suc (r - length x - 1)) command i s p b hw (omega arith) (omega arith) in
    let second =
      scan-end (r - length x - 1) command (i + length x)
        (record s { args = fill s.args s.w s.j x; j = s.j + length x }) c.0 hw (omega arith) hi in
    rw (e, first, second)
      (returns (
        (last-row s.args s.w s.j x p l hj, tt),
        refl,
        refl,
        λ v m. earlier-last s.args s.w s.j x (s.j + length x) 0 v m,
      ))

pub scan-Words :
    (x : List ℕ) (ys : List (List ℕ)) (r : ℕ) (command : ℕ → ℕ) (i : ℕ) (s : Scan)
    → Words (x ∷ ys)
    → At command i (joined x ys)
    → s.w + suc (length ys) ≤ 10
    → s.j ≡ 0
    → i + length (joined x ys) ≤ 20
    → length (joined x ys) ≤ r
    → Returns (Scanned s (x ∷ ys)) (scan r command i s)
unfolding joined
scan-Words x [] r command i s p a hw hj hi hr =
    let n = length-append x (0 ∷ []) in
    scan-last x r command i s p.0 p.1 a (omega arith) hj (omega (arith, n)) (omega (arith, n))
scan-Words x (y ∷ ys) r command i s p a hw hj hi hr =
    let n = length-append x (32 ∷ joined y ys) in
    let e : r ≡ length x + suc (r - length x - 1) = omega (arith, n) in
    let (b, c) = At-split command i x (32 ∷ joined y ys) a in
    let first =
      scan-word x (suc (r - length x - 1)) command i s p.0 b (omega arith) (omega (arith, p.1))
        (omega (arith, n)) in
    let filled = record s { args = fill s.args s.w s.j x; j = s.j + length x } in
    let second =
      scan-space (r - length x - 1) command (i + length x) filled c.0 (omega arith)
        (omega (arith, p.1)) (omega (arith, n)) in
    let next = record filled {
      args = put (put filled.args s.w filled.j 32) s.w filled.j 0;
      j = 0;
      w = s.w + 1;
    } in
    let rest =
      scan-Words y ys (r - length x - 1) command (i + length x + 1) next p.2 c.1 (omega arith) refl
        (omega (arith, n)) (omega (arith, n)) in
    rw (e, first, second)
      (Returns-weaken
        (λ s' q. (
          (ap row_string (q.3 s.w (omega arith)) ∙ space-row s.args s.w s.j x p.0 p.1 hj, q.0),
          q.1,
          q.2,
          λ v m.
              q.3 v (omega (arith, m))
              ∙ put-row (put (fill s.args s.w s.j x) s.w (s.j + length x) 32) s.w (s.j + length x) 0
                  v (λ e. absurd (omega arith))
              ∙ earlier-last s.args s.w s.j x (s.j + length x) 32 v m,
        ))
        rest)
