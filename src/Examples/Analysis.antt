-- ===== src/Examples/Analysis.antt =====
-- An example of the analysis of a meeting transcript.
use relay.Prelude.{ℕ, refl, none, some, List, [], ◌∷◌, String, All, str_eq}
use relay.Sources.Schemas.{SourceCaptureInput, TaskProposal}
use relay.Sources.Analysis.{
  MonthDay, CalendarDate, Answer, batch, month_number, normalize, extract_literal_dates,
  date_is_literally_supported, without_unsupported_dates, of_transcript, generate,
}
use relay.Sources.Analysis.Dates.{IsGrounded, generate-IsGrounded}

-- The text states Oct 3, and the model answers that day and the one before.
abbrev transcript : SourceCaptureInput
transcript = record {
  source_type = "MEETING_TRANSCRIPT";
  title = "Standup";
  content = "Ana: slides before Demo Day on Oct 3";
  original_filename = none;
}

abbrev matches : String → List MonthDay
matches text = record { name = "oct"; day = 3; year = none } ∷ []

-- Days of October 2026.
abbrev calendar : ℕ → CalendarDate
calendar day = record { year = 2026; month = 10; day = day }

abbrev proposal : ℕ → TaskProposal
proposal day = record {
  title = "Slides";
  description = none;
  due_date = some day;
  estimate_minutes = none;
  priority = none;
  owner = some "ana";
  source_reference = none;
  reason = none;
  needs_confirmation = [];
}

abbrev answer : SourceCaptureInput → String → Answer
answer source current_user = batch (proposal 3 ∷ proposal 2 ∷ [])

abbrev analyzed_proposals : List TaskProposal
analyzed_proposals =
    proposal 3 ∷ record (proposal 2) { due_date = none; needs_confirmation = "due_date" ∷ [] } ∷ []

generate-IsGrounded_example :
    All
      (IsGrounded (λ text. []) matches calendar (λ name. name) str_eq transcript)
      analyzed_proposals
unfolding generate of_transcript without_unsupported_dates date_is_literally_supported
    extract_literal_dates month_number normalize
generate-IsGrounded_example =
    generate-IsGrounded (λ text. []) matches calendar (λ name. name) str_eq answer transcript "ana"
      analyzed_proposals refl
