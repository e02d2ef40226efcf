-- ===== src/Examples/Values.antt =====
-- Examples of the parts without state.
use relay.Prelude.{
  ℕ, ◌+◌, ◌*◌, ◌≤◌, ◌≡◌, refl, ◌↔◌, ◌⊎◌, Bool, true, false, none, some, List, [], ◌∷◌, String, All,
  arith, ap, ◌==◌, if◌then◌else◌,
}
use relay.Prelude.Int.{ℤ, pos, ◌≤ℤ◌}
use relay.Domain.Enums.{WorkflowStatus as S}
use relay.Domain.Workflows.{Transition, transitions, terminal_states, transition}
use relay.Domain.Workflows.Lifecycle.{
  History, rest, step, IsFinal, CanCancel, length-History, History-executing, transition-completed,
}
use relay.Json.{Json, Fields, exact_json}
use relay.Json.Canonical.{swap, exact_json-SameItems}
use relay.Scheduling.Slots.{
  minute, FreeWindow, BusyInterval, subtract_busy, ceil_to_slot, floor_to_slot,
}
use relay.Scheduling.Slots.Free.{IsFree, subtract_busy-IsFree}
use relay.Scheduling.Slots.Covered.{covers, subtract_busy-covers}
use relay.Scheduling.Sessions.{decompose_minutes}
use relay.Scheduling.Sessions.Lengths.{
  total, Fits, decompose_minutes-total, decompose_minutes-Fits, decompose_minutes_exceeds,
}
use relay.Scheduling.Overlap.{CandidateSlot, overlap_constraints, sort_by_start}
use relay.Scheduling.Overlap.Sweep.{all_pairs, overlap_constraints-eq-all_pairs}
use relay.Scheduling.Overlap.Selection.{Obeys, Spaced, chosen, overlap_constraints-Spaced}
use relay.Scheduling.Problem.{StudySession, SchedulingProblem, Period}
use relay.Store.{ProjectMember}
use relay.Projects.Identity.{
  of_matches, full_name_matches, first_name_matches, resolve_identity, IsOnly,
  resolve_identity-IsOnly,
}

abbrev queued_run :
    History S.draft
      (S.analyzing ∷ S.plan_ready ∷ S.awaiting_approval ∷ S.approved ∷ S.queued ∷ S.executing ∷ [])
unfolding transition transitions terminal_states
queued_run = step none 1 refl (
    step none 2 refl (
      step none 3 refl (step none 4 refl (step none 5 refl (step none 6 refl (rest S.executing))))))

length-History_example : 6 ≤ 7
length-History_example = length-History queued_run

History-executing_example :
    (S.analyzing ∷ S.plan_ready ∷ S.awaiting_approval ∷ S.approved ∷ S.queued ∷ [])
    ≡ (S.analyzing ∷ S.plan_ready ∷ S.awaiting_approval ∷ S.approved ∷ S.queued ∷ [])
History-executing_example =
    History-executing
      (S.analyzing ∷ S.plan_ready ∷ S.awaiting_approval ∷ S.approved ∷ S.queued ∷ []) [] queued_run

abbrev ended : Transition
ended = record {
  previous = S.executing;
  current = S.failed;
  updated_at = 4;
  started_at = some 2;
  completed_at = some 4;
}

transition-completed_example :
    (ended.completed_at ≡ some 4) × IsFinal S.failed
    ⊎ (ended.completed_at ≡ none) × CanCancel S.failed
unfolding transition transitions terminal_states
transition-completed_example =
    transition-completed S.executing S.failed (some 2) 4 {change = ended} refl

abbrev first_code : List ℕ → ℕ
first_code [] = 0
first_code (c ∷ cs) = c

abbrev one_key : Fields → Fields
one_key fs = Fields.field "a" (Json.num 1) fs

abbrev other_key : Fields → Fields
other_key fs = Fields.field "b" (Json.num 2) fs

exact_json-SameItems_example :
    exact_json (Json.obj (one_key (other_key Fields.end)))
    ≡ exact_json (Json.obj (other_key (one_key Fields.end)))
exact_json-SameItems_example =
    exact_json-SameItems
      (swap "b" "a" (Json.num 1) (Json.num 2) Fields.end (λ e. omega (arith, ap first_code e)))

abbrev day : List FreeWindow
day = record { start = 0; finish = 120 * minute } ∷ []

abbrev lecture : List BusyInterval
lecture = record { start = 20 * minute; finish = 50 * minute } ∷ []

subtract_busy-IsFree_example : All (IsFree day lecture) (subtract_busy day lecture)
subtract_busy-IsFree_example = subtract_busy-IsFree day lecture (refl, tt)

subtract_busy-covers_example : covers (70 * minute) (subtract_busy day lecture) ≡ true
unfolding floor_to_slot ceil_to_slot
subtract_busy-covers_example = subtract_busy-covers (70 * minute) lecture day (refl, tt) refl

decompose_minutes-total_example :
    (chunks : List ℤ) × (decompose_minutes 95 45 60 ≡ some chunks) × (total chunks ≡ pos 95)
decompose_minutes-total_example = decompose_minutes-total 95 45 60 (omega arith) (omega arith)

decompose_minutes-Fits_example : All (Fits 60) (pos 45 ∷ pos 50 ∷ [])
unfolding decompose_minutes
decompose_minutes-Fits_example =
    decompose_minutes-Fits 95 45 60 {chunks = pos 45 ∷ pos 50 ∷ []} (omega arith) (omega arith) refl

decompose_minutes_exceeds_example :
    (chunks : List ℤ) × (decompose_minutes 7 5 5 ≡ some chunks) × (¬ All (λ c. c ≤ℤ pos 5) chunks)
decompose_minutes_exceeds_example =
    decompose_minutes_exceeds 7 5 5 (omega arith) (omega arith) (omega arith) (omega arith)

abbrev candidate : ℕ → ℕ → CandidateSlot
candidate index at = record {
  index = index;
  task_id = "t";
  start = at * minute;
  finish = (at + 30) * minute;
  fragment_id = 0;
  duration_minutes = pos 30;
  score = pos 0;
}

abbrev candidates : List CandidateSlot
candidates = candidate 0 0 ∷ candidate 1 15 ∷ candidate 2 60 ∷ []

overlap_constraints-eq-all_pairs_example :
    overlap_constraints 10 candidates ≡ all_pairs (10 * minute) (sort_by_start candidates)
overlap_constraints-eq-all_pairs_example = overlap_constraints-eq-all_pairs 10 candidates

abbrev not_second : ℕ → Bool
not_second index = if index == 1 then false else true

overlap_constraints-Spaced_example :
    Obeys not_second (overlap_constraints 10 candidates)
    ↔ Spaced (10 * minute) (chosen not_second (sort_by_start candidates))
overlap_constraints-Spaced_example =
    overlap_constraints-Spaced not_second 10 candidates
      (omega arith, (omega arith, (omega arith, tt)))

abbrev problem : SchedulingProblem
problem = record {
  tasks =
      record {
        id = "t";
        title = "T";
        deadline = 600 * minute;
        estimated_minutes = 90;
        priority = 3;
      }
      ∷ [];
  availability_windows = record { start = 0; finish = 600 * minute } ∷ [];
  busy_intervals = record { start = 200 * minute; finish = 230 * minute } ∷ [];
  preferences = record {
    zone = record {
      date = λ t. 0;
      time_of_day = λ t. t;
      weekday = λ t. 2;
      combine = λ day time. time;
    };
    earliest_study_time = 0;
    latest_study_time = 600 * minute;
    preferred_session_minutes = 45;
    maximum_session_minutes = 60;
    minimum_break_minutes = 10;
    weekend_available = false;
    preferred_period = Period.any_period;
  };
  locked_sessions = [];
  now = 0;
}

abbrev moved_sessions : List StudySession
moved_sessions =
    record { id = none; task_id = "t"; start = 60 * minute; finish = 90 * minute }
    ∷ record { id = none; task_id = "t"; start = 0; finish = 30 * minute }
    ∷ []

abbrev member : ℕ → String → ProjectMember
member id name = record {
  id = id;
  project_workspace_id = 8;
  display_name = name;
  email = none;
  notion_identity = none;
  github_username = none;
}

abbrev members : List ProjectMember
members = member 4 "ana" ∷ member 5 "bob" ∷ []

abbrev same : String → String
same text = text

resolve_identity-IsOnly_example :
    (m : ProjectMember) × (m.id ≡ 5)
    × (IsOnly (full_name_matches same same same "bob") members m
        ⊎ (All (λ x. full_name_matches same same same "bob" x ≡ false) members
            × IsOnly (first_name_matches same same same "bob") members m))
unfolding resolve_identity of_matches
resolve_identity-IsOnly_example = resolve_identity-IsOnly same same same "bob" members 5 refl
