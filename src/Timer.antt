-- ===== src/Timer.antt =====
-- kernel/timer.c: a table of 64 delayed calls, which `timer_poll` moves to the work queue when
-- their tick has come. Each critical section of `timer_lock` is one step; `now` is what
-- `pit_get_ticks` returns. A null function is 0.
pub mod Poll
pub mod Fires
mod Tests
use my_os.Prelude.{
  ℕ, zero, suc, ◌+◌, Bool, true, false, not, ◌&&◌, ◌||◌, List, [], ◌∷◌, add32, add64, leb, ltb,
  ◌==◌, if◌then◌else◌, replicate,
}
use my_os.Workqueue.{Workqueue, workqueue_schedule}

abbrev pub timer_max_items : ℕ
timer_max_items = 64

-- `timer_item_t`.
pub record TimerItem : Type 0 where
  pub active : Bool
  pub due_tick : ℕ
  pub func : ℕ
  pub arg : ℕ
  pub seq : ℕ

abbrev pub clear_item : TimerItem
clear_item = record { active = false; due_tick = 0; func = 0; arg = 0; seq = 0 }

-- `due_work_t`.
pub record DueWork : Type 0 where
  pub func : ℕ
  pub arg : ℕ
  pub seq : ℕ

-- The static variables.
pub record Timer : Type 0 where
  pub items : List TimerItem
  pub next_seq : ℕ
  pub fired : ℕ
  pub failed : ℕ

unfoldable pub timer_init : Timer
timer_init = record {
  items = replicate timer_max_items clear_item;
  next_seq = 1;
  fired = 0;
  failed = 0;
}

-- The loop of `timer_schedule_ticks`: the first slot that is not active takes the item. The result
-- tells whether there was one.
unfoldable pub fill_slot : TimerItem → List TimerItem → Bool × List TimerItem
fill_slot new [] = (false, [])
fill_slot new (item ∷ rest) =
    let (result, rest') = fill_slot new rest in
    if not item.active then (true, new ∷ rest) else (result, item ∷ rest')

unfoldable pub timer_schedule_ticks : ℕ → ℕ → ℕ → ℕ → Timer → Bool × Timer
timer_schedule_ticks now delay_ticks func arg t =
    let delay = if delay_ticks == 0 then 1 else delay_ticks in
    let new : TimerItem = record {
      active = true;
      due_tick = add64 now delay;
      func = func;
      arg = arg;
      seq = t.next_seq;
    } in
    let (result, items) = fill_slot new t.items in
    if func == 0
    then (false, t)
    else if result
    then (true, record t { items = items; next_seq = add64 t.next_seq 1 })
    else (false, record t { failed = add64 t.failed 1 })

abbrev pub is_due : ℕ → TimerItem → Bool
is_due now item = item.active && leb item.due_tick now

-- The first loop of `timer_poll`: the works that are due, and the table without them.
unfoldable pub collect_due : ℕ → List TimerItem → List DueWork × List TimerItem
collect_due now [] = ([], [])
collect_due now (item ∷ rest) =
    let (works, rest') = collect_due now rest in
    let work : DueWork = record { func = item.func; arg = item.arg; seq = item.seq } in
    if is_due now item then (work ∷ works, clear_item ∷ rest') else (works, item ∷ rest')

-- The second loop: the counts of the works that the queue took and refused.
unfoldable pub schedule_due : List DueWork → ℕ → ℕ → Workqueue → ℕ × ℕ × Workqueue
schedule_due [] fired_add failed_add q = (fired_add, failed_add, q)
schedule_due (work ∷ works) fired_add failed_add q =
    let (result, q') = workqueue_schedule q work.func work.arg in
    elim result [
      | true ↦ schedule_due works (add64 fired_add 1) failed_add q'
      | false ↦ schedule_due works fired_add (add64 failed_add 1) q'
    ]

abbrev pub count_works : List DueWork → ℕ
count_works [] = 0
count_works (work ∷ works) = suc (count_works works)

unfoldable pub timer_poll : ℕ → Timer × Workqueue → ℕ × Timer × Workqueue
timer_poll now (t, q) =
    let (works, items) = collect_due now t.items in
    let (fired_add, failed_add, q') = schedule_due works 0 0 q in
    let t' : Timer = record t { items = items } in
    (
      count_works works,
      if not (fired_add == 0) || not (failed_add == 0)
          then record t' { fired = add64 t.fired fired_add; failed = add64 t.failed failed_add }
          else t',
      q',
    )

-- The loop of `timer_pending_count`.
unfoldable pub timer_pending_count : List TimerItem → ℕ
timer_pending_count [] = 0
timer_pending_count (item ∷ rest) =
    let count = timer_pending_count rest in if item.active then suc count else count
