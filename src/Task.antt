-- ===== src/Task.antt =====
-- kernel/task.c: the cooperative scheduler. The `next` chain of the tasks is the list `tasks` in
-- the order of creation, from `task_head` to `task_tail`, and a `struct task*` is a position in
-- it. Stacks, register contexts and names are left out: `task_context_switch` is assembly, and a
-- task's run until it switches back is a parameter of `task_run_once`. Each critical section of
-- `task_lock` is one step.
mod Tests
pub mod Pick
pub mod States
use my_os.Prelude.{
  ℕ, zero, suc, ◌+◌, Bool, true, false, List, [], ◌∷◌, ◌++◌, Option, none, some, map, add32, add64,
  leb, ltb, ◌==◌, ◌&&◌, ◌||◌, not, if◌then◌else◌, length, get_or, set,
}

pub data TaskState : Type 0 where
  unused ready running sleeping waiting done : TaskState

abbrev pub is_ready : TaskState → Bool
is_ready ready = true
is_ready _ = false

abbrev pub is_running : TaskState → Bool
is_running running = true
is_running _ = false

abbrev pub is_sleeping : TaskState → Bool
is_sleeping sleeping = true
is_sleeping _ = false

abbrev pub is_waiting : TaskState → Bool
is_waiting waiting = true
is_waiting _ = false

-- `task_t`.
pub record Task : Type 0 where
  pub id : ℕ
  pub state : TaskState
  pub wake_tick : ℕ
  pub entry : ℕ
  pub arg : ℕ
  pub wait_next : Option ℕ

abbrev pub no_task : Task
no_task = record { id = 0; state = unused; wake_tick = 0; entry = 0; arg = 0; wait_next = none }

-- The static variables.
pub record Scheduler : Type 0 where
  pub tasks : List Task
  pub current : Option ℕ
  pub cursor : Option ℕ
  pub next_task_id : ℕ
  pub total_task_count : ℕ

pub task_init : Scheduler
task_init = record {
  tasks = [];
  current = none;
  cursor = none;
  next_task_id = 1;
  total_task_count = 0;
}

abbrev pub task_at : Scheduler → ℕ → Task
task_at s i = get_or s.tasks i no_task

abbrev pub update_task : Scheduler → ℕ → Task → Scheduler
update_task s i t = record s { tasks = set s.tasks i t }

abbrev pub set_state : Scheduler → ℕ → TaskState → Scheduler
set_state s i st = let t = task_at s i in update_task s i (record t { state = st })

-- `task_create`; the flags tell whether the three allocations succeed. The name is left out.
unfoldable pub task_create : Scheduler → ℕ → ℕ → Bool → Bool → Bool → ℕ × Scheduler
task_create s entry arg has_task has_name has_stack =
    let task : Task = record {
      id = s.next_task_id;
      state = ready;
      wake_tick = 0;
      entry = entry;
      arg = arg;
      wait_next = none;
    } in
    if entry == 0
    then (0, s)
    else if not has_task
    then (0, s)
    else if not has_name
    then (0, s)
    else if not has_stack
    then (0, s)
    else (
      s.next_task_id,
      record s {
        next_task_id = add32 s.next_task_id 1;
        tasks = s.tasks ++ (task ∷ []);
        total_task_count = add32 s.total_task_count 1;
      },
    )

-- The body of the loop in `task_wakeup_sleeping_locked`.
abbrev pub wake_sleeping : ℕ → Task → Task
wake_sleeping now t =
    if is_sleeping t.state && leb t.wake_tick now
    then record t { state = ready; wake_tick = 0 }
    else t

pub task_wakeup_sleeping : ℕ → Scheduler → Scheduler
task_wakeup_sleeping now s = record s { tasks = map (wake_sleeping now) s.tasks }

-- The task behind position `i`, or the head of the list.
abbrev pub next_position : List Task → ℕ → ℕ
next_position tasks i = if ltb (i + 1) (length tasks) then i + 1 else 0

-- The `do`-`while` of `task_pick_next_locked`, once round from `start`.
pub pick_loop : ℕ → List Task → ℕ → ℕ → Option ℕ
pick_loop zero tasks start current = none
pick_loop (suc n) tasks start current =
    let next = next_position tasks current in
    let rest = pick_loop n tasks start next in
    if is_ready (get_or tasks current no_task).state
    then some current
    else if next == start
    then none
    else rest

abbrev pub pick_start : Scheduler → ℕ
pick_start s = elim s.cursor [ none ↦ 0 | some c ↦ next_position s.tasks c ]

pub task_pick_next : ℕ → Scheduler → Option ℕ × Scheduler
task_pick_next now s =
    let s' = task_wakeup_sleeping now s in
    if length s.tasks == 0
    then (none, s)
    else elim (pick_loop (length s.tasks) s'.tasks (pick_start s') (pick_start s')) [
      | none ↦ (none, s')
      | some i ↦ (some i, record s' { cursor = some i })
    ]

-- Up to the switch to the task that was picked.
pub task_dispatch : ℕ → Scheduler → Option ℕ × Scheduler
task_dispatch now s =
    let (next, s') = task_pick_next now s in
    elim next [
      | none ↦ (none, s')
      | some i ↦ (some i, set_state (record s' { current = some i }) i running)
    ]

-- `switch` is the run of the chosen task until it comes back to the scheduler.
pub task_run_once : (Scheduler → Scheduler) → ℕ → Scheduler → Bool × Scheduler
task_run_once switch now s =
    let (next, s') = task_dispatch now s in
    elim next [
      | none ↦ (false, s')
      | some i ↦ let s'' = switch s' in (true, record s'' { current = none })
    ]

-- What the current task does to the scheduler before it switches back.
unfoldable pub task_yield : Scheduler → Scheduler
task_yield s = elim s.current [
  | none ↦ s
  | some i ↦ if is_running (task_at s i).state then set_state s i ready else s
]

unfoldable pub task_sleep_ticks : ℕ → ℕ → Scheduler → Scheduler
unfolding task_yield
task_sleep_ticks now ticks s = elim s.current [
  | none ↦ s
  | some i ↦
      let t = task_at s i in
      if ticks == 0
      then task_yield s
      else update_task s i (record t { state = sleeping; wake_tick = add64 now ticks })
]

-- `none` is the kernel panic of a call without a current task.
unfoldable pub task_exit : Scheduler → Option Scheduler
task_exit s = elim s.current [
  | none ↦ none
  | some i ↦
      let t = task_at s i in some (update_task s i (record t { state = done; wake_tick = 0 }))
]

unfoldable pub task_current_id : Scheduler → ℕ
task_current_id s = elim s.current [ none ↦ 0 | some i ↦ (task_at s i).id ]

unfoldable pub task_set_waiting : Scheduler → ℕ → Scheduler
task_set_waiting s i = set_state s i waiting

unfoldable pub task_set_ready : Scheduler → ℕ → Scheduler
task_set_ready s i = if is_waiting (task_at s i).state then set_state s i ready else s

unfoldable pub task_wait_next : Scheduler → ℕ → Option ℕ
task_wait_next s i = (task_at s i).wait_next

unfoldable pub task_wait_set_next : Scheduler → ℕ → Option ℕ → Scheduler
task_wait_set_next s i next = let t = task_at s i in update_task s i (record t { wait_next = next })

-- The counting loops.
pub count_states : (TaskState → Bool) → List Task → ℕ
count_states p [] = 0
count_states p (t ∷ ts) = let rest = count_states p ts in if p t.state then add32 rest 1 else rest

pub task_ready_count : ℕ → Scheduler → ℕ × Scheduler
unfolding count_states
task_ready_count now s = let s' = task_wakeup_sleeping now s in (count_states is_ready s'.tasks, s')

pub task_sleeping_count : ℕ → Scheduler → ℕ × Scheduler
unfolding count_states
task_sleeping_count now s =
    let s' = task_wakeup_sleeping now s in (count_states is_sleeping s'.tasks, s')

pub task_waiting_count : Scheduler → ℕ
unfolding count_states
task_waiting_count s = count_states is_waiting s.tasks
