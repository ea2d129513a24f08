-- ===== src/Timer/Tests.antt =====
-- Examples on a table with two items.
use my_os.Prelude.{
  ℕ, ◌+◌, ◌-◌, ◌≡◌, ◌++◌, true, refl, [], ◌∷◌, arith, replicate, length-replicate, length, take,
  get_or, if◌then◌else◌, Any,
}
use my_os.Workqueue.{Workqueue, no_item, workqueue_init, workqueue_schedule}
use my_os.Workqueue.Queue.{IsValid, workqueue_init-IsValid}
use my_os.Timer.{Timer, TimerItem, clear_item, is_due, timer_poll, collect_due, schedule_due}
use my_os.Timer.Poll.{due_calls, queued_calls, timer_poll-due}
use my_os.Timer.Fires.{poll_all, timer_item-fires}

abbrev blank : Workqueue
blank = record {
  items = replicate 64 no_item;
  head = 0;
  tail = 0;
  count = 0;
  next_seq = 1;
  executed = 0;
  dropped = 0;
}

abbrev queue : Workqueue
queue = workqueue_init blank

queue-IsValid : IsValid queue
queue-IsValid = workqueue_init-IsValid blank (length-replicate 64 no_item)

abbrev early_item : TimerItem
early_item = record { active = true; due_tick = 10; func = 4096; arg = 1; seq = 1 }

abbrev late_item : TimerItem
late_item = record { active = true; due_tick = 30; func = 8192; arg = 2; seq = 2 }

abbrev table : Timer
table = record {
  items = early_item ∷ late_item ∷ clear_item ∷ [];
  next_seq = 3;
  fired = 0;
  failed = 0;
}

timer_poll-due_example :
    let (count, t', q') = timer_poll 20 (table, queue) in
    (count ≡ length (due_calls 20 table.items))
    × IsValid q'
    × (queued_calls q'
        ≡ queued_calls queue ++ take (64 - length (queued_calls queue)) (due_calls 20 table.items))
    × ((i : ℕ)
        → get_or t'.items i clear_item ≡ (
            let item = get_or table.items i clear_item in
            if is_due 20 item then clear_item else item))
timer_poll-due_example =
    timer_poll-due 20 table queue queue-IsValid
      ((λ h. omega arith), ((λ h. omega arith), ((λ h. absurd (cc)), tt)))

one_due :
    length (queued_calls queue)
      + length (due_calls 30 (poll_all ((5, queue) ∷ (20, queue) ∷ []) table).items)
    ≡ 1
unfolding poll_all timer_poll collect_due schedule_due workqueue_schedule workqueue_init
one_due = refl

timer_item-fires_example :
    let t' = poll_all ((5, queue) ∷ (20, queue) ∷ []) table in
    (get_or t'.items 1 clear_item ≡ late_item)
    × Any (λ c. c ≡ (8192, 2)) (queued_calls (timer_poll 30 (t', queue)).2)
    × (get_or (timer_poll 30 (t', queue)).1.items 1 clear_item ≡ clear_item)
timer_item-fires_example =
    timer_item-fires ((5, queue) ∷ (20, queue) ∷ []) 30 table queue 1 refl
      (omega arith, (omega arith, tt)) (omega arith)
      ((λ h. omega arith), ((λ h. omega arith), ((λ h. absurd (cc)), tt))) queue-IsValid
      (omega (arith, one_due))
