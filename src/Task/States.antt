-- ===== src/Task/States.antt =====
-- kernel/task.c: the states of the tasks under every step of the scheduler.
use my_os.Prelude.{
  ℕ, ◌≡◌, refl, sym, subst, ap, ◌∙◌, ◌≢◌, ◌⊎◌, inl, inr, Bool, true, false, Option, none, some,
  arith, add64, ◌==◌, ==→eq, ==_false, Bool-cases, Option-cases, length, get_or, get_or-set_self,
  get_or-set_ne, set_past, get_or_past, get_or-append, get_or-map, dec_lt,
}
use my_os.Task.{
  Task, Scheduler, ready, running, sleeping, done, is_running, is_waiting, no_task, task_init,
  task_at, update_task, set_state, task_create, wake_sleeping, task_wakeup_sleeping, task_pick_next,
  task_dispatch, task_yield, task_sleep_ticks, task_exit, task_set_waiting, task_set_ready,
  task_wait_set_next,
}
use my_os.Task.Pick.{task_pick_next-Picks, woken}

abbrev pub running_at : Scheduler → ℕ → Bool
running_at s i = is_running (task_at s i).state

-- A running task is the current one.
abbrev pub RunningIsCurrent : Scheduler → Type 0
RunningIsCurrent s = (i : ℕ) → running_at s i ≡ true → s.current ≡ some i

-- What can happen to the scheduler. The dispatcher runs when no task is current; the others are
-- what the current task does up to its switch back, after which `task_run_once` clears the current
-- task, and what any task or interrupt handler may do meanwhile.
pub data Step : Scheduler → Scheduler → Type 0 where
  creates :
      {s : Scheduler} (entry arg : ℕ) (a b c : Bool) → Step s (task_create s entry arg a b c).1
  dispatches : {s : Scheduler} (now : ℕ) → s.current ≡ none → Step s (task_dispatch now s).1
  wakes_sleepers : {s : Scheduler} (now : ℕ) → Step s (task_wakeup_sleeping now s)
  wakes : {s : Scheduler} (i : ℕ) → Step s (task_set_ready s i)
  links : {s : Scheduler} (i : ℕ) (next : Option ℕ) → Step s (task_wait_set_next s i next)
  yields : {s t : Scheduler} → t ≡ task_yield s → Step s (record t { current = none })
  sleeps :
      {s t : Scheduler} (now ticks : ℕ)
      → t ≡ task_sleep_ticks now ticks s
      → Step s (record t { current = none })
  blocks :
      {s t : Scheduler} (i : ℕ)
      → s.current ≡ some i
      → t ≡ task_set_waiting s i
      → Step s (record t { current = none })
  exits : {s t : Scheduler} → task_exit s ≡ some t → Step s (record t { current = none })

-- The schedulers that can come about from the empty one.
pub data Reach : Scheduler → Type 0 where
  start : Reach task_init
  next : {s t : Scheduler} → Reach s → Step s t → Reach t

-- An update that leaves its task not running makes no task running, and stops that task.
running-update :
    (s : Scheduler) (i j : ℕ) (t : Task)
    → is_running t.state ≡ false
    → running_at (update_task s i t) j ≡ true
    → (i ≢ j) × (running_at s j ≡ true)
running-update s i j t still r = elim (Bool-cases (i == j)) [
  | inr e ↦
      let other =
        ap (λ (x : Task). is_running x.state)
          (get_or-set_ne s.tasks i j t no_task (ground arith)) in
      (ground arith, sym other ∙ r)
  | inl e ↦
      let same = ==→eq i j e in
      elim (dec_lt i (length s.tasks)) [
        | yes p ↦
            let new =
              ap (λ (x : Task). is_running x.state) (get_or-set_self s.tasks i t no_task p) in
            let here = subst (λ k. running_at (update_task s i t) k ≡ true) (sym same) r in
            absurd (false-ne-true (sym still ∙ sym new ∙ here))
        | no p ↦
            let unchanged =
              ap (λ l. is_running (get_or l j no_task).state)
                (set_past s.tasks i t (omega arith)) in
            let outside =
              ap (λ (x : Task). is_running x.state) (get_or_past s.tasks j no_task (omega arith)) in
            absurd (false-ne-true (sym outside ∙ sym unchanged ∙ r))
      ]
]
  where
    false-ne-true : false ≡ true → ⊥
    false-ne-true e = cc

module _ (s : Scheduler) (h : RunningIsCurrent s) where
  update_keeps :
      (i : ℕ) (t : Task) → is_running t.state ≡ false → RunningIsCurrent (update_task s i t)
  update_keeps i t still j r = h j (running-update s i j t still r).1

  -- If it is the current task that is updated, none is running after it.
  update_clears :
      (i j : ℕ) (t : Task)
      → s.current ≡ some i
      → is_running t.state ≡ false
      → running_at (update_task s i t) j ≡ true
      → ⊥
  update_clears i j t cur still r =
      let (other, old) = running-update s i j t still r in let now = h j old in other (ground arith)

-- No task is running.
abbrev NoneRunning : Scheduler → Type 0
NoneRunning s = (i : ℕ) → running_at s i ≡ true → ⊥

-- What the operations of the current task do to the states.
yield_cases :
    (s : Scheduler)
    → ((i : ℕ) × (s.current ≡ some i) × (task_yield s ≡ set_state s i ready))
      ⊎ ((task_yield s ≡ s) × ((i : ℕ) → s.current ≡ some i → running_at s i ≡ false))
unfolding task_yield
yield_cases s = elim (Option-cases s.current) [
  | inl e ↦ inr (ground arith, λ i e'. absurd (cc))
  | inr (i, e) ↦ elim (Bool-cases (running_at s i)) [
    | inl r ↦ inl (i, e, ground arith)
    | inr r ↦ inr (ground arith, λ j e'. ground arith)
  ]
]

sleep_cases :
    (now ticks : ℕ) (s : Scheduler)
    → (task_sleep_ticks now ticks s ≡ task_yield s)
      ⊎ ((i : ℕ) × (t : Task) × (s.current ≡ some i)
          × (is_running t.state ≡ false)
          × (task_sleep_ticks now ticks s ≡ update_task s i t))
unfolding task_sleep_ticks
sleep_cases now ticks s = elim (Option-cases s.current) [
  | inl e ↦ inl (ground arith)
  | inr (i, e) ↦ elim (Bool-cases (ticks == 0)) [
    | inl z ↦ inl (ground arith)
    | inr nz ↦
        let t = task_at s i in
        inr (i, record t { state = sleeping; wake_tick = add64 now ticks }, e, refl, ground arith)
  ]
]

exit_cases :
    (s u : Scheduler)
    → task_exit s ≡ some u
    → (i : ℕ) × (t : Task) × (s.current ≡ some i)
      × (is_running t.state ≡ false)
      × (u ≡ update_task s i t)
unfolding task_exit
exit_cases s u h = elim (Option-cases s.current) [
  | inl e ↦ absurd (ground arith)
  | inr (i, e) ↦
      let t = task_at s i in (i, record t { state = done; wake_tick = 0 }, e, refl, ground arith)
]

module _ (s : Scheduler) (h : RunningIsCurrent s) where
  idle : s.current ≡ none → NoneRunning s
  idle e i r = let now = h i r in cc

  yield_clears : NoneRunning (task_yield s)
  yield_clears j r = elim (yield_cases s) [
    | inl (i, cur, e) ↦ update_clears s h i j _ cur refl (rw e at r)
    | inr (e, still) ↦
        let here = rw e at r in let cur = h j here in let no_longer = still j cur in cc
  ]

  sleep_clears : (now ticks : ℕ) → NoneRunning (task_sleep_ticks now ticks s)
  sleep_clears now ticks j r = elim (sleep_cases now ticks s) [
    | inl e ↦ yield_clears j (rw e at r)
    | inr (i, t, cur, still, e) ↦ update_clears s h i j t cur still (rw e at r)
  ]

  block_clears : (i : ℕ) → s.current ≡ some i → NoneRunning (task_set_waiting s i)
  unfolding task_set_waiting
  block_clears i cur j r = update_clears s h i j _ cur refl r

  exit_clears : (u : Scheduler) → task_exit s ≡ some u → NoneRunning u
  exit_clears u e j r =
      let (i, t, cur, still, same) = exit_cases s u e in
      update_clears s h i j t cur still (rw same at r)

-- A task that is not running and is switched away from leaves none running.
cleared : (s : Scheduler) → NoneRunning s → RunningIsCurrent (record s { current = none })
cleared s h i r = absurd (h i r)

running-created :
    (s : Scheduler) (entry arg : ℕ) (a b c : Bool)
    → RunningIsCurrent s
    → RunningIsCurrent (task_create s entry arg a b c).1
unfolding task_create
running-created s entry arg a b c h i r =
    let fresh : Task = record {
      id = s.next_task_id;
      state = ready;
      wake_tick = 0;
      entry = entry;
      arg = arg;
      wait_next = none;
    } in
    ground (arith, get_or-append s.tasks fresh i no_task, h i)

running-woken :
    (now : ℕ) (s : Scheduler) (i : ℕ)
    → is_running (get_or (woken now s) i no_task).state ≡ running_at s i
running-woken now s i =
    let moved = get_or-map (wake_sleeping now) s.tasks i no_task in
    ap (λ (x : Task). is_running x.state) moved ∙ still (task_at s i)
  where
    still : (t : Task) → is_running (wake_sleeping now t).state ≡ is_running t.state
    still t = ground arith

-- An update that leaves the state of its task changes nothing for any task.
running_same :
    (s : Scheduler) (i j : ℕ) (t : Task)
    → is_running t.state ≡ running_at s i
    → running_at (update_task s i t) j ≡ true
    → running_at s j ≡ true
running_same s i j t kept r = elim (Bool-cases (i == j)) [
  | inr e ↦
      let other =
        ap (λ (x : Task). is_running x.state)
          (get_or-set_ne s.tasks i j t no_task (ground arith)) in
      sym other ∙ r
  | inl e ↦
      let same = ==→eq i j e in
      elim (dec_lt i (length s.tasks)) [
        | yes p ↦
            let new =
              ap (λ (x : Task). is_running x.state) (get_or-set_self s.tasks i t no_task p) in
            let here = subst (λ k. running_at (update_task s i t) k ≡ true) (sym same) r in
            subst (λ k. running_at s k ≡ true) same (sym kept ∙ sym new ∙ here)
        | no p ↦
            let unchanged =
              ap (λ l. is_running (get_or l j no_task).state)
                (set_past s.tasks i t (omega arith)) in
            sym unchanged ∙ r
      ]
]

linked :
    (s : Scheduler) (i : ℕ) (succ : Option ℕ)
    → RunningIsCurrent s
    → RunningIsCurrent (task_wait_set_next s i succ)
unfolding task_wait_set_next
linked s i succ h j r =
    let t = task_at s i in h j (running_same s i j (record t { wait_next = succ }) refl r)

set_ready : (s : Scheduler) (i : ℕ) → RunningIsCurrent s → RunningIsCurrent (task_set_ready s i)
unfolding task_set_ready
set_ready s i h = elim (Bool-cases (is_waiting (task_at s i).state)) [
  | inl e ↦ rw e (update_keeps s h i _ refl)
  | inr e ↦ rw e h
]

sleepers :
    (now : ℕ) (s : Scheduler) → RunningIsCurrent s → RunningIsCurrent (task_wakeup_sleeping now s)
unfolding task_wakeup_sleeping
sleepers now s h i r = h i (sym (running-woken now s i) ∙ r)

dispatch-none :
    (now : ℕ) (s : Scheduler)
    → (task_pick_next now s).0 ≡ none
    → (task_dispatch now s).1 ≡ (task_pick_next now s).1
unfolding task_dispatch
dispatch-none now s e = rw (e, task_dispatch)

dispatch-some :
    (now : ℕ) (s : Scheduler) (i : ℕ)
    → (task_pick_next now s).0 ≡ some i
    → (task_dispatch now s).1
      ≡ (let s' = (task_pick_next now s).1 in set_state (record s' { current = some i }) i running)
unfolding task_dispatch
dispatch-some now s i e = rw (e, task_dispatch)

module _ (now : ℕ) (s : Scheduler) (e : s.current ≡ none) (h : RunningIsCurrent s) where
  woken_idle : (t : Scheduler) → t.tasks ≡ woken now s → NoneRunning t
  woken_idle t same i r =
      let here = ap (λ l. is_running (get_or l i no_task).state) same in
      idle s h e i (sym (running-woken now s i) ∙ sym here ∙ r)

  only_picked :
      (t : Scheduler) (i : ℕ)
      → t.tasks ≡ woken now s
      → RunningIsCurrent (set_state (record t { current = some i }) i running)
  only_picked t i same j r = elim (Bool-cases (i == j)) [
    | inl here ↦ ap some (==→eq i j here)
    | inr other ↦
        let u = task_at t i in
        let there =
          ap (λ (x : Task). is_running x.state)
            (get_or-set_ne t.tasks i j (record u { state = running }) no_task
              (==_false i j other)) in
        absurd (woken_idle t same j (sym there ∙ r))
  ]

  dispatched : RunningIsCurrent (task_dispatch now s).1
  dispatched =
      let picks = task_pick_next-Picks now s in
      elim (Option-cases (task_pick_next now s).0) [
        | inl none_ready ↦
            let (tasks, free) = rw none_ready at picks in
            rw (dispatch-none now s none_ready)
              (λ i r. absurd (woken_idle (task_pick_next now s).1 tasks i r))
        | inr (i, chosen) ↦
            let (same, below, pick) = rw chosen at picks in
            rw (dispatch-some now s i chosen)
              (only_picked (task_pick_next now s).1 i (ap (λ (x : Scheduler). x.tasks) same))
      ]

Step-RunningIsCurrent : {s t : Scheduler} → Step s t → RunningIsCurrent s → RunningIsCurrent t
Step-RunningIsCurrent {s} (creates entry arg a b c) h = running-created s entry arg a b c h
Step-RunningIsCurrent {s} (dispatches now e) h = dispatched now s e h
Step-RunningIsCurrent {s} (wakes_sleepers now) h = sleepers now s h
Step-RunningIsCurrent {s} (wakes i) h = set_ready s i h
Step-RunningIsCurrent {s} (links i succ) h = linked s i succ h
Step-RunningIsCurrent {s} (yields {t} e) h = cleared t (rw e (yield_clears s h))
Step-RunningIsCurrent {s} (sleeps {t} now ticks e) h = cleared t (rw e (sleep_clears s h now ticks))
Step-RunningIsCurrent {s} (blocks {t} i cur e) h = cleared t (rw e (block_clears s h i cur))
Step-RunningIsCurrent {s} (exits {t} e) h = cleared t (exit_clears s h t e)

-- In every scheduler that comes about, a task in state RUNNING is the current task, so that at
-- most one task is running.
pub Reach-RunningIsCurrent : (s : Scheduler) → Reach s → RunningIsCurrent s
unfolding task_init
Reach-RunningIsCurrent _ start = λ i r. absurd (cc)
Reach-RunningIsCurrent _ (next r st) = Step-RunningIsCurrent st (Reach-RunningIsCurrent _ r)
