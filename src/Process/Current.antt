-- ===== src/Process/Current.antt =====
-- kernel/process.c: process_current_pid, the number of the process whose task is running.
use my_os.Prelude.{
  ℕ, zero, suc, ◌+◌, ◌<◌, ◌≡◌, ◌≢◌, refl, ◌⊎◌, inl, inr, true, false, ◌&&◌, List, [], ◌∷◌, Option,
  none, some, arith, ◌==◌, ==→eq, Bool-cases, Option-cases, length, get_or,
}
use my_os.Task.{Scheduler, no_task, task_current_id}
use my_os.Process.{
  Process, ProcessTable, ProcessState, no_process, running, is_running, find_by_task, process_at,
  process_current_pid,
}

-- The number of the current task, 0 where there is none.
abbrev IsCurrentTask : Scheduler → ℕ → Type 0
IsCurrentTask s id =
    ((s.current ≡ none) × (id ≡ 0))
    ⊎ ((c : ℕ) × (s.current ≡ some c) × (id ≡ (get_or s.tasks c no_task).id))

-- The process runs as the task.
abbrev Runs : ℕ → Process → Type 0
Runs id p = (p.task_id ≡ id) × (p.state ≡ running)

abbrev RunsNot : ℕ → Process → Type 0
RunsNot id p = p.task_id ≡ id → p.state ≢ running

-- The number of the first process that runs as the current task, or 0.
abbrev pub IsCurrentPid : ProcessTable → Scheduler → ℕ → Type 0
IsCurrentPid t s pid =
    (id : ℕ) × IsCurrentTask s id
    × (((id ≡ 0) × (pid ≡ 0))
        ⊎ ((pid ≡ 0) × ((j : ℕ) → j < length t.processes → RunsNot id (process_at t j)))
        ⊎ ((id ≢ 0)
            × ((i : ℕ) × (i < length t.processes)
                × Runs id (process_at t i)
                × ((j : ℕ) → j < i → RunsNot id (process_at t j))
                × (pid ≡ (process_at t i).pid))))

task_current_id-IsCurrentTask : (s : Scheduler) → IsCurrentTask s (task_current_id s)
unfolding task_current_id
task_current_id-IsCurrentTask s = elim (Option-cases s.current) [
  | inl e ↦ inl (e, rw e refl)
  | inr (c, e) ↦ inr (c, e, rw e refl)
]

-- What the walk from position `i` on over the processes comes to.
abbrev IsFirst : ℕ → List Process → ℕ → Option ℕ → Type 0
IsFirst id l i none = (j : ℕ) → j < length l → RunsNot id (get_or l j no_process)
IsFirst id l i (some k) =
    (n : ℕ) × (k ≡ i + n)
    × (n < length l)
    × Runs id (get_or l n no_process)
    × ((j : ℕ) → j < n → RunsNot id (get_or l j no_process))

is_running-true : (s : ProcessState) → is_running s ≡ true → s ≡ running
is_running-true s h = ground arith

runs_not : (id : ℕ) (p : Process) → ((p.task_id == id) && is_running p.state) ≡ false → RunsNot id p
runs_not id p h = λ e r. ground arith

IsFirst-cons :
    (id : ℕ) (p : Process) (l : List Process) (i : ℕ) (o : Option ℕ)
    → RunsNot id p
    → IsFirst id l (i + 1) o
    → IsFirst id (p ∷ l) i o
IsFirst-cons id p l i none h free = nowhere
  where
    nowhere : (j : ℕ) → j < suc (length l) → RunsNot id (get_or (p ∷ l) j no_process)
    nowhere zero below = h
    nowhere (suc j) below = free j (omega arith)
IsFirst-cons id p l i (some k) h (n, at, below, runs, before) =
    (suc n, omega arith, omega arith, runs, earlier)
  where
    earlier : (j : ℕ) → j < suc n → RunsNot id (get_or (p ∷ l) j no_process)
    earlier zero below = h
    earlier (suc j) below = before j (omega arith)

find_by_task-IsFirst : (id : ℕ) (l : List Process) (i : ℕ) → IsFirst id l i (find_by_task id l i)
unfolding find_by_task
find_by_task-IsFirst id [] i = λ j below. absurd (omega arith)
find_by_task-IsFirst id (p ∷ l) i = elim (Bool-cases ((p.task_id == id) && is_running p.state)) [
  | inl here ↦ rw here (
    0,
    omega arith,
    omega arith,
    (==→eq p.task_id id (ground arith), is_running-true p.state (ground arith)),
    λ j below. absurd (omega arith),
  )
  | inr other ↦
      rw other (IsFirst-cons id p l i _ (runs_not id p other) (find_by_task-IsFirst id l (i + 1)))
]

pub process_current_pid-IsCurrentPid :
    (t : ProcessTable) (s : Scheduler) → IsCurrentPid t s (process_current_pid t s)
unfolding process_current_pid
process_current_pid-IsCurrentPid t s =
    let id = task_current_id s in
    let first = find_by_task-IsFirst id t.processes 0 in
    elim (Bool-cases (id == 0)) [
      | inl idle ↦ (id, task_current_id-IsCurrentTask s, inl (==→eq id 0 idle, rw idle refl))
      | inr busy ↦ elim (Option-cases (find_by_task id t.processes 0)) [
        | inl e ↦
            (id, task_current_id-IsCurrentTask s, inr (inl (rw (busy, e) refl, rw e at first)))
        | inr (k, e) ↦
            let (n, at, below, runs, before) = rw e at first in
            let same : k ≡ n = omega arith in
            (
              id,
              task_current_id-IsCurrentTask s,
              inr (inr (ground arith, (n, below, runs, before, rw (busy, e, same) refl))),
            )
      ]
    ]
