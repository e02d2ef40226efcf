-- ===== src/Scheduling/Candidates/Due.antt =====
-- The sorting of the tasks in backend/app/scheduling/solver.py, and the deadlines of candidates.
use relay.Prelude.{
  ◌≤◌, ◌≡◌, sym, true, ◌&&◌, List, [], ◌∷◌, All, any, Bool-cases, inl, inr, leb, str_eq, eq_iff,
  arith,
}
use relay.Scheduling.Problem.{AcademicTask}
use relay.Scheduling.Overlap.{CandidateSlot}
use relay.Scheduling.Candidates.{comes_before, insert_task, sort_tasks}

-- The candidate belongs to one of the tasks and ends by its deadline.
abbrev pub Due : List AcademicTask → CandidateSlot → Type 0
Due tasks c = any (λ t. str_eq t.id c.task_id && leb c.finish t.deadline) tasks ≡ true

pub Due-first :
    (t : AcademicTask) (ts : List AcademicTask) (c : CandidateSlot)
    → c.task_id ≡ t.id
    → c.finish ≤ t.deadline
    → Due (t ∷ ts) c
Due-first t ts c same ends =
    let name = (eq_iff t.id c.task_id).1 (sym same) in ground (arith, name, ends)

pub Due-later :
    (t : AcademicTask) (ts : List AcademicTask) (c : CandidateSlot) → Due ts c → Due (t ∷ ts) c
Due-later t ts c h = ground arith

insert_task-All :
    (P : AcademicTask → Type 0) (t : AcademicTask) (ts : List AcademicTask)
    → P t
    → All P ts
    → All P (insert_task t ts)
unfolding insert_task
insert_task-All P t [] h k = (h, tt)
insert_task-All P t (u ∷ us) h k = elim (Bool-cases (comes_before u t)) [
  | inl later ↦ rw later (k.0, insert_task-All P t us h k.1)
  | inr here ↦ rw here (h, k)
]

pub sort_tasks-All :
    (P : AcademicTask → Type 0) (ts : List AcademicTask) → All P ts → All P (sort_tasks ts)
unfolding sort_tasks
sort_tasks-All P [] h = tt
sort_tasks-All P (t ∷ ts) h = insert_task-All P t (sort_tasks ts) h.0 (sort_tasks-All P ts h.1)
