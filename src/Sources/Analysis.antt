-- ===== src/Sources/Analysis.antt =====
-- backend/app/sources/dates.py, and `SourceAnalysisService.generate` of
-- backend/app/sources/analysis.py. The matches of the two regular expressions, the calendar fields
-- of a timestamp, what the strings' methods return and the language model's answer are parameters.
mod Literal
pub mod Dates
use relay.Prelude.{
  ℕ, Bool, true, false, Option, none, some, List, [], ◌∷◌, ◌++◌, String, map, keep, any, not, ◌&&◌,
  ◌||◌, leb, ◌==◌, str_eq, if◌then◌else◌,
}
use relay.Domain.Errors.{DomainError, Result, ok, err, malformed_model_output}
use relay.Sources.Schemas.{SourceCaptureInput, TaskProposal}

-- A date as a text states it, or as a timestamp has it.
pub record LiteralDate : Type 0 where
  pub month : ℕ
  pub day : ℕ
  pub year : Option ℕ

-- The groups of a match of `_MONTH_DAY`, the first one in lower case.
pub record MonthDay : Type 0 where
  pub name : String
  pub day : ℕ
  pub year : Option ℕ

pub record CalendarDate : Type 0 where
  pub year : ℕ
  pub month : ℕ
  pub day : ℕ

-- `_MONTHS`
abbrev months : List (String × ℕ)
months =
    ("jan", 1)
    ∷ ("january", 1)
    ∷ ("feb", 2)
    ∷ ("february", 2)
    ∷ ("mar", 3)
    ∷ ("march", 3)
    ∷ ("apr", 4)
    ∷ ("april", 4)
    ∷ ("may", 5)
    ∷ ("jun", 6)
    ∷ ("june", 6)
    ∷ ("jul", 7)
    ∷ ("july", 7)
    ∷ ("aug", 8)
    ∷ ("august", 8)
    ∷ ("sep", 9)
    ∷ ("sept", 9)
    ∷ ("september", 9)
    ∷ ("oct", 10)
    ∷ ("october", 10)
    ∷ ("nov", 11)
    ∷ ("november", 11)
    ∷ ("dec", 12)
    ∷ ("december", 12)
    ∷ []

-- `_MONTHS.get(name)`
abbrev month_of : List (String × ℕ) → String → Option ℕ
month_of [] name = none
month_of (entry ∷ entries) name =
    if str_eq entry.0 name then some entry.1 else month_of entries name

unfoldable pub month_number : String → Option ℕ
month_number name = month_of months name

abbrev pub is_day : ℕ → Bool
is_day day = leb 1 day && leb day 31

-- The first loop of `extract_literal_dates`.
abbrev pub iso_dates : List CalendarDate → List LiteralDate
iso_dates [] = []
iso_dates (m ∷ ms) =
    let rest = iso_dates ms in
    if (leb 1 m.month && leb m.month 12) && is_day m.day
    then record { month = m.month; day = m.day; year = some m.year } ∷ rest
    else rest

abbrev pub add_month_day : MonthDay → Option ℕ → List LiteralDate → List LiteralDate
add_month_day m none rest = rest
add_month_day m (some month) rest =
    if is_day m.day then record { month = month; day = m.day; year = m.year } ∷ rest else rest

-- The second loop of `extract_literal_dates`.
abbrev pub month_day_dates : List MonthDay → List LiteralDate
month_day_dates [] = []
month_day_dates (m ∷ ms) = add_month_day m (month_number m.name) (month_day_dates ms)

abbrev pub same_year : Option ℕ → ℕ → Bool
same_year none year = true
same_year (some stated) year = stated == year

abbrev pub states : CalendarDate → LiteralDate → Bool
states due date = date.month == due.month && date.day == due.day && same_year date.year due.year

-- `if name not in needs: needs.append(name)`
abbrev pub need : String → List String → List String
need name needs = if any (str_eq name) needs then needs else needs ++ name ∷ []

abbrev pub is_none : {A : Type 0} → Option A → Bool
is_none none = true
is_none (some a) = false

-- The body of the loop of the normalization.
unfoldable pub normalize : TaskProposal → TaskProposal
normalize item =
    let dated =
      if is_none item.due_date
      then need "due_date" item.needs_confirmation
      else item.needs_confirmation in
    record item { needs_confirmation = if is_none item.owner then need "owner" dated else dated }

-- `not item.owner`
abbrev pub lacks_owner : TaskProposal → Bool
lacks_owner item = elim item.owner [ none ↦ true | some name ↦ str_eq name "" ]

-- `if assigned_to_user`
abbrev pub prefer : List TaskProposal → List TaskProposal → List TaskProposal → List TaskProposal
prefer [] unassigned all = all
prefer (item ∷ items) unassigned all = (item ∷ items) ++ unassigned

-- What `generate_structured` and the validation come to: `ValidationError`, `AttributeError`,
-- `TypeError` and `ValueError` are `malformed`.
pub data Answer : Type 0 where
  batch : List TaskProposal → Answer
  malformed : Answer
  failed : DomainError → Answer

module _ (iso_matches : String → List CalendarDate) (month_matches : String → List MonthDay)
    (calendar : ℕ → CalendarDate) where
  unfoldable pub extract_literal_dates : String → List LiteralDate
  extract_literal_dates text = iso_dates (iso_matches text) ++ month_day_dates (month_matches text)

  unfoldable pub date_is_literally_supported : String → ℕ → Bool
  unfolding extract_literal_dates
  date_is_literally_supported content due =
      any (states (calendar due)) (extract_literal_dates content)

  abbrev pub clear_date : String → Option ℕ → TaskProposal → TaskProposal
  clear_date content none item = item
  clear_date content (some date) item =
      if not (date_is_literally_supported content date)
      then record item {
        due_date = none;
        needs_confirmation = need "due_date" item.needs_confirmation;
      }
      else item

  -- `_without_unsupported_dates`
  unfoldable pub without_unsupported_dates : List TaskProposal → String → List TaskProposal
  without_unsupported_dates [] content = []
  without_unsupported_dates (item ∷ items) content =
      clear_date content item.due_date item ∷ without_unsupported_dates items content

module _ (strip_casefold : String → String) (contains : String → String → Bool) where
  -- `item.owner and item.owner.strip().casefold() in identity`
  abbrev pub is_assigned : String → TaskProposal → Bool
  is_assigned identity item = elim item.owner [
    | none ↦ false
    | some name ↦ not (str_eq name "") && contains (strip_casefold name) identity
  ]

  -- The branch for a transcript.
  unfoldable pub of_transcript : String → List TaskProposal → List TaskProposal
  unfolding normalize
  of_transcript current_user items =
      let identity = strip_casefold current_user in
      map normalize (prefer (keep (is_assigned identity) items) (keep lacks_owner items) items)

module _ (iso_matches : String → List CalendarDate) (month_matches : String → List MonthDay)
    (calendar : ℕ → CalendarDate) (strip_casefold : String → String)
    (contains : String → String → Bool) where
  abbrev pub analyzed : SourceCaptureInput → String → Answer → Result (List TaskProposal)
  unfolding of_transcript without_unsupported_dates
  analyzed source current_user (batch proposals) =
      let items =
        without_unsupported_dates iso_matches month_matches calendar proposals source.content in
      ok (
        if str_eq source.source_type "MEETING_TRANSCRIPT"
        then of_transcript strip_casefold contains current_user items
        else items)
  analyzed source current_user malformed = err malformed_model_output
  analyzed source current_user (failed e) = err e

  module _ (generate_structured : SourceCaptureInput → String → Answer) where
    unfoldable pub generate : SourceCaptureInput → String → Result (List TaskProposal)
    generate source current_user =
        analyzed source current_user (generate_structured source current_user)
