-- ===== src/Scheduling/Penalties.antt =====
-- The soft costs of backend/app/scheduling/solver.py: `_daily_balance_penalties` and
-- `_same_task_daily_penalties`.
use relay.Prelude.{
  ℕ, ◌+◌, ◌/◌, Bool, ◌&&◌, ◌||◌, List, [], ◌∷◌, map, length, String, ltb, ◌==◌, str_eq,
  if◌then◌else◌,
}
use relay.Prelude.Int.{ℤ, pos}
use relay.Prelude.Dict.{get_or, put, gather}
use relay.Scheduling.Problem.{AcademicTask, StudySession, SchedulingProblem, SchedulingWeights}
use relay.Scheduling.Overlap.{CandidateSlot}
use relay.Scheduling.Candidates.{Minutes, remaining}

-- `sum(selected[i] * weight for i, weight in terms)`
abbrev pub Terms : Type 0
Terms = List (ℕ × ℤ)

-- A variable between 0 and `maximum`, at least the sum less `target`, with its cost.
pub record Penalty : Type 0 where
  pub terms : Terms
  pub offset : ℕ
  pub target : ℕ
  pub maximum : ℕ
  pub weight : ℕ

abbrev pub minutes_of : CandidateSlot → ℕ × ℤ
minutes_of c = (c.index, c.duration_minutes)

abbrev pub day_of : SchedulingProblem → ℕ → ℕ
day_of p moment = p.preferences.zone.date moment

unfoldable pub day_groups :
    SchedulingProblem → List (ℕ × List (ℕ × ℤ)) → List CandidateSlot → List (ℕ × List (ℕ × ℤ))
day_groups p groups [] = groups
day_groups p groups (c ∷ cs) =
    day_groups p (gather (λ a b. a == b) (day_of p c.start) (minutes_of c) groups) cs

unfoldable pub total_required : Minutes → List AcademicTask → ℕ
total_required locked [] = 0
total_required locked (task ∷ tasks) = remaining locked task + total_required locked tasks

abbrev pub overage : ℕ → ℕ → ℕ → ℕ × Terms → Penalty
overage total target weight group = record {
  terms = group.1;
  offset = 0;
  target = target;
  maximum = total;
  weight = weight;
}

-- `_daily_balance_penalties`
unfoldable pub daily_balance_penalties :
    SchedulingProblem → SchedulingWeights → Minutes → List CandidateSlot → List Penalty
unfolding day_groups total_required
daily_balance_penalties p weights locked candidates =
    let groups = day_groups p [] candidates in
    let total = total_required locked p.tasks in
    if (weights.daily_balance == 0) || ltb (length groups) 2 || (total == 0)
    then []
    else map (overage total (total / length groups) weights.daily_balance) groups

abbrev pub same_task_day : String × ℕ → String × ℕ → Bool
same_task_day a b = str_eq a.0 b.0 && (a.1 == b.1)

unfoldable pub task_day_groups :
    SchedulingProblem
    → List ((String × ℕ) × List ℕ)
    → List CandidateSlot
    → List ((String × ℕ) × List ℕ)
task_day_groups p groups [] = groups
task_day_groups p groups (c ∷ cs) =
    task_day_groups p (gather same_task_day (c.task_id, day_of p c.start) c.index groups) cs

unfoldable pub locked_counts :
    SchedulingProblem → List ((String × ℕ) × ℕ) → List StudySession → List ((String × ℕ) × ℕ)
locked_counts p counts [] = counts
locked_counts p counts (s ∷ rest) =
    let k : String × ℕ = (s.task_id, day_of p s.start) in
    locked_counts p (put same_task_day k (get_or same_task_day 0 k counts + 1) counts) rest

abbrev pub once : ℕ → ℕ × ℤ
once index = (index, pos 1)

abbrev pub over_count : ℕ → ℕ → ℕ → List ℕ → Penalty
over_count locked allowed weight indices = record {
  terms = map once indices;
  offset = locked;
  target = allowed;
  maximum = locked + length indices;
  weight = weight;
}

unfoldable pub count_penalties :
    SchedulingWeights → List ((String × ℕ) × ℕ) → List ((String × ℕ) × List ℕ) → List Penalty
count_penalties weights counts [] = []
count_penalties weights counts (group ∷ groups) =
    let locked = get_or same_task_day 0 group.0 counts in
    over_count locked 1 weights.same_task_second_session group.1
    ∷ over_count locked 2 weights.same_task_additional_session group.1
    ∷ count_penalties weights counts groups

-- `_same_task_daily_penalties`
unfoldable pub same_task_daily_penalties :
    SchedulingProblem → SchedulingWeights → List CandidateSlot → List Penalty
unfolding task_day_groups locked_counts count_penalties
same_task_daily_penalties p weights candidates =
    count_penalties weights (locked_counts p [] p.locked_sessions) (task_day_groups p [] candidates)
