-- ===== src/Sources/Analysis/Literal.antt =====
-- What `extract_literal_dates` of backend/app/sources/dates.py finds is in the text.
use relay.Prelude.{
  ℕ, ◌≡◌, refl, ap, ◌∙◌, ◌⊎◌, inl, inr, Bool, true, false, ◌&&◌, Option, none, some, List, [], ◌∷◌,
  any, leb, Among, if◌then◌else◌, Bool-cases, arith,
}
use relay.Sources.Analysis.{
  LiteralDate, MonthDay, CalendarDate, month_number, is_day, iso_dates, add_month_day,
  month_day_dates, same_year, states,
}

-- A match of the first expression that is the date, and one of the second.
abbrev pub IsIso : CalendarDate → CalendarDate → Type 0
IsIso due m = (m.year ≡ due.year) × (m.month ≡ due.month) × (m.day ≡ due.day)

abbrev pub IsMonthDay : CalendarDate → MonthDay → Type 0
IsMonthDay due m =
    (month_number m.name ≡ some due.month)
    × (m.day ≡ due.day)
    × ((m.year ≡ none) ⊎ (m.year ≡ some due.year))

year_cases : (year : Option ℕ) (y : ℕ) → same_year year y ≡ true → (year ≡ none) ⊎ (year ≡ some y)
year_cases none y h = inl refl
year_cases (some stated) y h = inr (ap some (ground arith))

states-fields :
    (due : CalendarDate) (month day : ℕ) (year : Option ℕ)
    → states due (record { month = month; day = day; year = year }) ≡ true
    → (month ≡ due.month) × (day ≡ due.day) × ((year ≡ none) ⊎ (year ≡ some due.year))
states-fields due month day year h =
    (ground (arith, h), ground (arith, h), year_cases year due.year (ground (arith, h)))

-- What passes a test in a list that an element was perhaps put before.
any-if {ℓ} :
    {A : Type ℓ} (p : A → Bool) (kept : Bool) (x : A) (xs : List A)
    → any p (if kept then x ∷ xs else xs) ≡ true
    → (p x ≡ true) ⊎ (any p xs ≡ true)
any-if p true x xs h = elim (Bool-cases (p x)) [
  | inl here ↦ inl here
  | inr not_here ↦ inr (ground (arith, h))
]
any-if p false x xs h = inr h

year_is : (year y : ℕ) → (some year ≡ none) ⊎ (some year ≡ some y) → year ≡ y
year_is year y (inl e) = cc
year_is year y (inr e) = cc

pub iso_dates-states :
    (due : CalendarDate) (ms : List CalendarDate)
    → any (states due) (iso_dates ms) ≡ true
    → Among (IsIso due) ms
iso_dates-states due [] h = cc
iso_dates-states due (m ∷ ms) h =
    elim (any-if (states due) ((leb 1 m.month && leb m.month 12) && is_day m.day)
      (record { month = m.month; day = m.day; year = some m.year }) (iso_dates ms) h) [
        | inl here ↦
            let (month, day, year) = states-fields due m.month m.day (some m.year) here in
            inl (year_is m.year due.year year, month, day)
        | inr later ↦ inr (iso_dates-states due ms later)
      ]

month_day-states :
    (due : CalendarDate) (m : MonthDay) (number : Option ℕ) (rest : List LiteralDate)
    → month_number m.name ≡ number
    → any (states due) (add_month_day m number rest) ≡ true
    → IsMonthDay due m ⊎ (any (states due) rest ≡ true)
month_day-states due m none rest e h = inr h
month_day-states due m (some month) rest e h =
    elim (any-if (states due) (is_day m.day) (record { month = month; day = m.day; year = m.year })
      rest h) [
        | inl here ↦
            let (same_month, day, year) = states-fields due month m.day m.year here in
            inl (e ∙ ap some same_month, day, year)
        | inr later ↦ inr later
      ]

pub month_day_dates-states :
    (due : CalendarDate) (ms : List MonthDay)
    → any (states due) (month_day_dates ms) ≡ true
    → Among (IsMonthDay due) ms
month_day_dates-states due [] h = cc
month_day_dates-states due (m ∷ ms) h =
    elim (month_day-states due m (month_number m.name) (month_day_dates ms) refl h) [
      | inl here ↦ inl here
      | inr later ↦ inr (month_day_dates-states due ms later)
    ]
