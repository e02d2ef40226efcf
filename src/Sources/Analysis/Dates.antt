-- ===== src/Sources/Analysis/Dates.antt =====
-- No date of a proposal is made up (backend/app/sources/analysis.py).
use relay.Prelude.{
  ℕ, ◌≡◌, refl, sym, subst, ◌⊎◌, inl, inr, Bool, true, false, Option, none, some, List, [], ◌∷◌,
  String, map, keep, any, All, Among, All-append, any-append, any-last, any-keeps, All-map,
  All-keep, str_eq, eq_iff, if◌then◌else◌, Bool-cases,
}
use relay.Domain.Errors.{Result, ok, err}
use relay.Sources.Schemas.{SourceCaptureInput, TaskProposal}
use relay.Sources.Analysis.{
  MonthDay, CalendarDate, iso_dates, month_day_dates, states, need, is_none, normalize, lacks_owner,
  Answer, batch, malformed, failed, extract_literal_dates, date_is_literally_supported, clear_date,
  without_unsupported_dates, is_assigned, prefer, of_transcript, analyzed, generate,
}
use relay.Sources.Analysis.Literal.{IsIso, IsMonthDay, iso_dates-states, month_day_dates-states}

-- What holds of each proposal where there are any.
abbrev AllOk : (TaskProposal → Type 0) → Result (List TaskProposal) → Type 0
AllOk P (ok items) = All P items
AllOk P (err e) = Unit

-- The list names the field.
abbrev pub Asks : String → TaskProposal → Type 0
Asks name item = any (str_eq name) item.needs_confirmation ≡ true

-- The field is there, or it is asked for.
abbrev pub IsComplete : TaskProposal → Type 0
IsComplete item =
    ((is_none item.due_date ≡ false) ⊎ Asks "due_date" item)
    × ((is_none item.owner ≡ false) ⊎ Asks "owner" item)

need-asks : (name : String) (needs : List String) → any (str_eq name) (need name needs) ≡ true
need-asks name needs = elim (Bool-cases (any (str_eq name) needs)) [
  | inl there ↦ rw there there
  | inr absent ↦ rw absent (any-last (str_eq name) needs name ((eq_iff name name).1 refl))
]

need-keeps :
    (name other : String) (needs : List String)
    → any (str_eq other) needs ≡ true
    → any (str_eq other) (need name needs) ≡ true
need-keeps name other needs h = elim (Bool-cases (any (str_eq name) needs)) [
  | inl there ↦ rw there h
  | inr absent ↦ rw absent (any-keeps (str_eq other) needs (name ∷ []) h)
]

-- What the two steps of a normalization leave.
all_asked :
    (no_date no_owner : Bool) (needs : List String)
    → let dated = if no_date then need "due_date" needs else needs in
      let asked = if no_owner then need "owner" dated else dated in
      ((no_date ≡ false) ⊎ (any (str_eq "due_date") asked ≡ true))
      × ((no_owner ≡ false) ⊎ (any (str_eq "owner") asked ≡ true))
all_asked false false needs = (inl refl, inl refl)
all_asked false true needs = (inl refl, inr (need-asks "owner" needs))
all_asked true false needs = (inr (need-asks "due_date" needs), inl refl)
all_asked true true needs = (
  inr (need-keeps "owner" "due_date" (need "due_date" needs) (need-asks "due_date" needs)),
  inr (need-asks "owner" (need "due_date" needs)),
)

normalize-IsComplete : (item : TaskProposal) → IsComplete (normalize item)
unfolding normalize
normalize-IsComplete item =
    all_asked (is_none item.due_date) (is_none item.owner) item.needs_confirmation

module _ (iso_matches : String → List CalendarDate) (month_matches : String → List MonthDay)
    (calendar : ℕ → CalendarDate) where
  -- The text has a match of one of the expressions that is the date.
  abbrev pub IsWritten : String → ℕ → Type 0
  IsWritten content date =
      Among (IsIso (calendar date)) (iso_matches content)
      ⊎ Among (IsMonthDay (calendar date)) (month_matches content)

  abbrev pub IsStated : String → Option ℕ → Type 0
  IsStated content none = Unit
  IsStated content (some date) = IsWritten content date

  supported-IsWritten :
      (content : String) (date : ℕ)
      → date_is_literally_supported iso_matches month_matches calendar content date ≡ true
      → IsWritten content date
  unfolding date_is_literally_supported extract_literal_dates
  supported-IsWritten content date h =
      elim (any-append (states (calendar date)) (iso_dates (iso_matches content))
        (month_day_dates (month_matches content)) h) [
          | inl iso ↦ inl (iso_dates-states (calendar date) (iso_matches content) iso)
          | inr named ↦ inr (month_day_dates-states (calendar date) (month_matches content) named)
        ]

  clear_date-IsStated :
      (content : String) (date : Option ℕ) (item : TaskProposal)
      → item.due_date ≡ date
      → IsStated content (clear_date iso_matches month_matches calendar content date item).due_date
  clear_date-IsStated content none item e = subst (IsStated content) (sym e) tt
  clear_date-IsStated content (some date) item e =
      elim (Bool-cases
        (date_is_literally_supported iso_matches month_matches calendar content date)) [
          | inl stated ↦
              rw stated (subst (IsStated content) (sym e) (supported-IsWritten content date stated))
          | inr invented ↦ rw invented tt
        ]

  without-IsStated :
      (items : List TaskProposal) (content : String)
      → All
          (λ item. IsStated content item.due_date)
          (without_unsupported_dates iso_matches month_matches calendar items content)
  unfolding without_unsupported_dates
  without-IsStated [] content = tt
  without-IsStated (item ∷ items) content =
      (clear_date-IsStated content item.due_date item refl, without-IsStated items content)

  normalized :
      (content : String) (items : List TaskProposal)
      → All (λ item. IsStated content item.due_date) items
      → All (λ item. IsStated content item.due_date × IsComplete item) (map normalize items)
  unfolding normalize
  normalized content [] h = tt
  normalized content (item ∷ items) h =
      ((h.0, normalize-IsComplete item), normalized content items h.1)

prefer-All :
    (P : TaskProposal → Type 0) (own unassigned items : List TaskProposal)
    → All P own
    → All P unassigned
    → All P items
    → All P (prefer own unassigned items)
prefer-All P [] unassigned items h k l = l
prefer-All P (item ∷ own) unassigned items h k l = All-append P (item ∷ own) unassigned h k

module _ (iso_matches : String → List CalendarDate) (month_matches : String → List MonthDay)
    (calendar : ℕ → CalendarDate) (strip_casefold : String → String)
    (contains : String → String → Bool) where
  -- A source that is no transcript, or a proposal that asks for what it lacks.
  abbrev pub IsAsked : SourceCaptureInput → TaskProposal → Type 0
  IsAsked source item = (str_eq source.source_type "MEETING_TRANSCRIPT" ≡ false) ⊎ IsComplete item

  abbrev pub IsGrounded : SourceCaptureInput → TaskProposal → Type 0
  IsGrounded source item =
      IsStated iso_matches month_matches calendar source.content item.due_date × IsAsked source item

  of_transcript-IsGrounded :
      (content current_user : String) (items : List TaskProposal)
      → All (λ item. IsStated iso_matches month_matches calendar content item.due_date) items
      → All
          (λ item.
            IsStated iso_matches month_matches calendar content item.due_date × IsComplete item)
          (of_transcript strip_casefold contains current_user items)
  unfolding of_transcript
  of_transcript-IsGrounded content current_user items h =
      let P = (λ (item : TaskProposal).
        IsStated iso_matches month_matches calendar content item.due_date) in
      let own = is_assigned strip_casefold contains (strip_casefold current_user) in
      normalized iso_matches month_matches calendar content
        (prefer (keep own items) (keep lacks_owner items) items)
        (prefer-All P (keep own items) (keep lacks_owner items) items (All-keep P own items h)
          (All-keep P lacks_owner items h) h)

  analyzed-IsGrounded :
      (source : SourceCaptureInput) (current_user : String) (answer : Answer)
      → AllOk (IsGrounded source) (
          analyzed iso_matches month_matches calendar strip_casefold contains source current_user
            answer)
  unfolding analyzed
  analyzed-IsGrounded source current_user malformed = tt
  analyzed-IsGrounded source current_user (failed e) = tt
  analyzed-IsGrounded source current_user (batch given) =
      let dated = without-IsStated iso_matches month_matches calendar given source.content in
      elim (Bool-cases (str_eq source.source_type "MEETING_TRANSCRIPT")) [
        | inr other ↦ rw other (
            All-map (λ item stated. (stated, inl other))
              (without_unsupported_dates iso_matches month_matches calendar given source.content)
              dated)
        | inl transcript ↦ rw transcript (
            All-map (λ item h. (h.0, inr h.1))
              (of_transcript strip_casefold contains current_user
                (without_unsupported_dates iso_matches month_matches calendar given source.content))
              (of_transcript-IsGrounded source.content current_user
                (without_unsupported_dates iso_matches month_matches calendar given source.content)
                dated))
      ]

  -- Whatever the language model answers, each due date of a proposal that analysis returns is
  -- written in the source, as a year, month and day or as the name of the month and the day with
  -- that year or with none; and a proposal from a meeting transcript that has no due date, or no
  -- owner, names that field in `needs_confirmation`.
  pub generate-IsGrounded :
      (generate_structured : SourceCaptureInput → String → Answer) (source : SourceCaptureInput)
      (current_user : String) (proposals : List TaskProposal)
      → generate iso_matches month_matches calendar strip_casefold contains generate_structured
          source current_user
        ≡ ok proposals
      → All (IsGrounded source) proposals
  unfolding generate
  generate-IsGrounded generate_structured source current_user proposals h =
      subst (AllOk (IsGrounded source)) h
        (analyzed-IsGrounded source current_user (generate_structured source current_user))
