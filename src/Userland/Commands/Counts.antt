-- ===== src/Userland/Commands/Counts.antt =====
-- What `wc`, `filter` and `find_color` do with their whole input.
use boke_os.Base.{
  ℕ, suc, ◌+◌, ◌<◌, ◌≢◌, ◌≡◌, refl, sym, ap, ◌∙◌, arith, Bool-cases, ==_iff, inl, inr, true, false,
  some, none, List, [], ◌∷◌, ◌++◌, ltb, ◌==◌, if◌then◌else◌, length,
}
use boke_os.Base.Run.{fault}
use boke_os.Userland.Utils.{strcmp}
use boke_os.Userland.Commands.Table.{find_from, is_zero}
use boke_os.Userland.Commands.Filters.{
  filter, is_vowel, wc, wc_from, find_color, find_color_from, hex_arr,
}

-- How often a character is in a list.
abbrev pub occurrences : ℕ → List ℕ → ℕ
occurrences c [] = 0
occurrences c (d ∷ ds) = let n = occurrences c ds in if d == c then suc n else n

abbrev pub NoEof : List ℕ → Type 0
NoEof [] = Unit
NoEof (c ∷ cs) = (c ≢ 1) × NoEof cs

wc_from-occurrences :
    (cs rest : List ℕ) (lines : ℕ)
    → NoEof cs
    → wc_from lines (cs ++ 1 ∷ rest) ≡ some (cs ++ 10 ∷ [], lines + occurrences 10 cs)
unfolding wc_from
wc_from-occurrences [] rest lines h = let e : lines + 0 ≡ lines = omega arith in rw e refl
wc_from-occurrences (c ∷ cs) rest lines h =
    let x : (c == 1) ≡ false = ground (arith, h.0) in
    elim (Bool-cases (c == 10)) [
      | inl e ↦
          let more : lines + 1 + occurrences 10 cs ≡ lines + suc (occurrences 10 cs) =
            omega arith in
          rw (x, e, wc_from-occurrences cs rest (lines + 1) h.1, more) refl
      | inr e ↦ rw (x, e, wc_from-occurrences cs rest lines h.1) refl
    ]

-- `wc` shows its input up to the EOF and counts one line more than there are ends of lines.
wc-occurrences :
    (cs rest : List ℕ)
    → NoEof cs
    → wc (cs ++ 1 ∷ rest) ≡ some (cs ++ 10 ∷ [], 1 + occurrences 10 cs)
unfolding wc
wc-occurrences cs rest h = wc_from-occurrences cs rest 1 h

find_color_from-outside :
    (names : List (List ℕ)) (i j : ℕ) (color : List ℕ)
    → i + length names < 20
    → find_from names j color ≡ none
    → find_color_from names i color ≡ fault
unfolding find_color_from find_from
find_color_from-outside [] i j color h f =
    let inside : ltb i 20 ≡ true = ground arith in rw inside refl
find_color_from-outside (name ∷ names) i j color h f =
    let inside : ltb i 20 ≡ true = ground arith in
    elim (Bool-cases (is_zero (strcmp name color))) [
      | inl e ↦ absurd (ground (arith, rw e at f))
      | inr e ↦
          let rest : find_from names (j + 1) color ≡ none = rw e at f in
          rw (inside, e) (find_color_from-outside names (i + 1) (j + 1) color (omega arith) rest)
    ]

-- `find_color` of a name that is not one of the five reads behind the table of names.
find_color-outside : (color : List ℕ) → find_from hex_arr 0 color ≡ none → find_color color ≡ fault
unfolding find_color
find_color-outside color f = find_color_from-outside hex_arr 0 0 color (omega arith) f

-- `filter` shows its input up to the EOF without the vowels: of every character that is no vowel as
-- many as there are, of the vowels none, and an end of the line behind them.
filter-occurrences :
    (cs rest : List ℕ)
    → NoEof cs
    → (out : List ℕ) × (filter (cs ++ 1 ∷ rest) ≡ some (out ++ 10 ∷ []))
      × ((c : ℕ) → occurrences c out ≡ (if is_vowel c then 0 else occurrences c cs))
unfolding filter
filter-occurrences [] rest h = ([], refl, λ c. ground arith)
filter-occurrences (d ∷ ds) rest h =
    let (out, run, counts) = filter-occurrences ds rest h.1 in
    let x : (d == 1) ≡ false = ground (arith, h.0) in
    elim (Bool-cases (is_vowel d)) [
      | inl e ↦ (
        out,
        rw (x, e) run,
        λ c. counts c ∙ elim (Bool-cases (d == c)) [
          | inl f ↦
              let v : is_vowel c ≡ true = ap is_vowel (sym ((==_iff d c).0 f)) ∙ e in rw v refl
          | inr f ↦ rw f refl
        ],
      )
      | inr e ↦ (
        d ∷ out,
        rw (x, e, run) refl,
        λ c. elim (Bool-cases (d == c)) [
          | inl f ↦
              let v : is_vowel c ≡ false = ap is_vowel (sym ((==_iff d c).0 f)) ∙ e in
              let k : occurrences c out ≡ occurrences c ds = counts c ∙ rw v refl in
              rw (f, v) (ap suc k)
          | inr f ↦ rw f (counts c)
        ],
      )
    ]
