-- ===== src/Console/Clock.antt =====
-- `convert_to_gtm_minus_3` and `Time_clock` of Kernel/naiveConsole.c. The values of the clock are
-- parameters: assembly reads them from the hardware.
use boke_os.Base.{
  ℕ, zero, suc, ◌+◌, ◌-◌, ◌*◌, ◌%◌, ◌≤◌, ◌<◌, ◌≡◌, refl, inl, inr, ◌⊎◌, Bool-cases, Bool, not, ◌&&◌,
  ◌||◌, none, some, List, [], ◌∷◌, ◌++◌, ◌==◌, ltb, if◌then◌else◌, get_or, arith,
}
use boke_os.Base.Run.{Run, ok, fault, out_of_fuel, ◌>>=◌}
use boke_os.Console.Numbers.{uint_to_base}

-- The four values that `convert_to_gtm_minus_3` changes.
pub record Date : Type 0 where
  pub hours : ℕ
  pub days : ℕ
  pub month : ℕ
  pub year : ℕ

-- `days_in_month`, where February has 28 days.
abbrev pub days_in_month : List ℕ
days_in_month = 31 ∷ 28 ∷ 31 ∷ 30 ∷ 31 ∷ 30 ∷ 31 ∷ 31 ∷ 30 ∷ 31 ∷ 30 ∷ 31 ∷ []

abbrev pub is_leap : ℕ → Bool
is_leap year = (year % 4 == 0) && (not (year % 100 == 0) || (year % 400 == 0))

-- `days_in_month[i]`, with the 29 that is written for a leap year.
unfoldable pub month_days : (year i : ℕ) → ℕ
month_days year i = if is_leap year && (i == 1) then 29 else get_or days_in_month i 0

-- `convert_to_gtm_minus_3`. A month 0, and the month before January, has the index -1 in
-- `days_in_month`, where the read is out of bounds. The first read is not used before it is made again.
unfoldable pub convert_to_gtm_minus_3 : Date → Run Date
convert_to_gtm_minus_3 d =
    if d.month == 0
    then fault
    else if ltb d.hours 3
    then (if ltb (d.days - 1) 1
        then (if d.month == 1
            then fault
            else ok (record d {
              hours = d.hours + 24 - 3;
              days = month_days d.year ((d.month - 2) % 12);
              month = d.month - 1;
            }))
        else ok (record d { hours = d.hours + 24 - 3; days = d.days - 1 }))
    else ok (record d { hours = d.hours - 3 })

-- `days[i]`; a weekday 0 or beyond 7 reads outside of the array.
unfoldable pub weekday_name : ℕ → Run (List ℕ)
weekday_name zero = ok (b's' ∷ b'u' ∷ b'n' ∷ [])
weekday_name (suc zero) = ok (b'l' ∷ b'u' ∷ b'n' ∷ [])
weekday_name (suc (suc zero)) = ok (b'm' ∷ b'a' ∷ b'r' ∷ [])
weekday_name (suc (suc (suc zero))) = ok (b'm' ∷ b'i' ∷ b'e' ∷ [])
weekday_name (suc (suc (suc (suc zero)))) = ok (b'j' ∷ b'u' ∷ b'e' ∷ [])
weekday_name (suc (suc (suc (suc (suc zero))))) = ok (b'v' ∷ b'i' ∷ b'e' ∷ [])
weekday_name (suc (suc (suc (suc (suc (suc zero)))))) = ok (b's' ∷ b'a' ∷ b'b' ∷ [])
weekday_name (suc (suc (suc (suc (suc (suc (suc i))))))) = fault

-- `uint_to_base(n, buffer + digits, 10)` of a number below 2 ^ 64.
abbrev pub decimal : ℕ → Run (List ℕ)
decimal n = elim (uint_to_base 64 n 10) [ none ↦ out_of_fuel | some cs ↦ ok cs ]

-- The characters that `Time_clock` leaves in the buffer, less the terminator.
unfoldable pub time_clock : (minutes seconds weekday : ℕ) → Date → Run (List ℕ)
time_clock minutes seconds weekday now = do
  d ← convert_to_gtm_minus_3 now
  h ← decimal d.hours
  m ← decimal minutes
  s ← decimal seconds
  name ← if weekday == 0 then fault else weekday_name (weekday - 1)
  day ← decimal d.days
  month ← decimal d.month
  year ← decimal d.year
  ok (
      h
      ++ b':' ∷ m
      ++ b':' ∷ s
      ++ b' ' ∷ name
      ++ b' ' ∷ day
      ++ b'/' ∷ month
      ++ b'/' ∷ year
      ++ b' ' ∷ [])

-- The days of a year before the month with an index.
abbrev pub days_before : (year i : ℕ) → ℕ
days_before year zero = 0
days_before year (suc i) = days_before year i + month_days year i

-- The hours since the start of the year.
abbrev pub hour_of_year : Date → ℕ
hour_of_year d = (days_before d.year (d.month - 1) + d.days) * 24 + d.hours

pub record IsDate (d : Date) : Type 0 where
  pub hour : d.hours < 24
  pub month_from : 1 ≤ d.month
  pub month_to : d.month ≤ 12
  pub day_from : 1 ≤ d.days
  pub day_to : d.days ≤ month_days d.year (d.month - 1)

month_days_pos : (year i : ℕ) → i < 12 → 1 ≤ month_days year i
unfolding month_days
month_days_pos year zero h = ground arith
month_days_pos year (suc zero) h = ground arith
month_days_pos year (suc (suc zero)) h = ground arith
month_days_pos year (suc (suc (suc zero))) h = ground arith
month_days_pos year (suc (suc (suc (suc zero)))) h = ground arith
month_days_pos year (suc (suc (suc (suc (suc zero))))) h = ground arith
month_days_pos year (suc (suc (suc (suc (suc (suc zero)))))) h = ground arith
month_days_pos year (suc (suc (suc (suc (suc (suc (suc zero))))))) h = ground arith
month_days_pos year (suc (suc (suc (suc (suc (suc (suc (suc zero)))))))) h = ground arith
month_days_pos year (suc (suc (suc (suc (suc (suc (suc (suc (suc zero))))))))) h = ground arith
month_days_pos year (suc (suc (suc (suc (suc (suc (suc (suc (suc (suc zero)))))))))) h =
    ground arith
month_days_pos year (suc (suc (suc (suc (suc (suc (suc (suc (suc (suc (suc zero))))))))))) h =
    ground arith
month_days_pos year (suc (suc (suc (suc (suc (suc (suc (suc (suc (suc (suc (suc i)))))))))))) h =
    absurd (omega arith)

days_before-pred :
    (year i : ℕ) → 0 < i → days_before year i ≡ days_before year (i - 1) + month_days year (i - 1)
days_before-pred year zero h = absurd (omega arith)
days_before-pred year (suc i) h = let same : suc i - 1 ≡ i = omega arith in rw same refl

-- The last day of the month before.
abbrev month_before : Date → Date
month_before d = record d {
  hours = d.hours + 24 - 3;
  days = month_days d.year ((d.month - 2) % 12);
  month = d.month - 1;
}

month_before_lem :
    (d : Date)
    → IsDate d
    → d.hours < 3
    → 1 < d.month
    → IsDate (month_before d) × (d.days ≡ 1 → hour_of_year (month_before d) + 3 ≡ hour_of_year d)
month_before_lem d v early l =
    let index : (d.month - 2) % 12 ≡ d.month - 1 - 1 = omega arith in
    rw index (
      omega (arith, month_days_pos d.year (d.month - 1 - 1)),
      λ e. omega (arith, days_before-pred d.year (d.month - 1)),
    )

-- A date is moved back by three hours within its year, leap years included. In the first three hours
-- of the first of January it cannot be: there `days_in_month` is read out of bounds.
pub convert_to_gtm_minus_3_earlier :
    (d : Date)
    → IsDate d
    → (((d' : Date) × (convert_to_gtm_minus_3 d ≡ ok d')
        × IsDate d'
        × (d'.year ≡ d.year)
        × (hour_of_year d' + 3 ≡ hour_of_year d)))
      ⊎ ((convert_to_gtm_minus_3 d ≡ fault) × (d.month ≡ 1) × (d.days ≡ 1) × (d.hours < 3))
unfolding convert_to_gtm_minus_3
convert_to_gtm_minus_3_earlier d v = elim (Bool-cases (ltb d.hours 3)) [
  | inr late ↦
      inl (record d { hours = d.hours - 3 }, ground arith, ground arith, refl, ground arith)
  | inl early ↦ elim (Bool-cases (ltb (d.days - 1) 1)) [
    | inr inside ↦ inl (
      record d { hours = d.hours + 24 - 3; days = d.days - 1 },
      ground arith,
      ground arith,
      refl,
      ground arith,
    )
    | inl first ↦ elim (Bool-cases (d.month == 1)) [
      | inl january ↦ inr (ground arith, ground arith, ground arith, ground arith)
      | inr later ↦
          let l : 1 < d.month = ground arith in
          inl (
            month_before d,
            ground arith,
            (month_before_lem d v (ground arith) l).0,
            refl,
            (month_before_lem d v (ground arith) l).1 (ground arith),
          )
    ]
  ]
]
