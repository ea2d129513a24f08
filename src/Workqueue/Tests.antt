-- ===== src/Workqueue/Tests.antt =====
-- Examples on a queue of 64 places with two items.
use my_os.Prelude.{ℕ, ◌+◌, ◌≡◌, replicate, length-replicate, length, min, take, drop}
use my_os.Workqueue.{Workqueue, no_item, workqueue_init, workqueue_schedule, workqueue_run_pending}
use my_os.Workqueue.Queue.{IsValid, contents, workqueue_init-IsValid, workqueue_schedule-IsValid}
use my_os.Workqueue.Run.{on_world, act_all, run_limit, workqueue_run_pending-Runs}

abbrev blank : Workqueue
blank = record {
  items = replicate 64 no_item;
  head = 0;
  tail = 0;
  count = 0;
  next_seq = 1;
  executed = 0;
  dropped = 0;
}

abbrev one_item : Workqueue
one_item = (workqueue_schedule (workqueue_init blank) 4096 7).1

abbrev two_items : Workqueue
two_items = (workqueue_schedule one_item 8192 9).1

blank-IsValid : IsValid (workqueue_init blank)
blank-IsValid = workqueue_init-IsValid blank (length-replicate 64 no_item)

two_items-IsValid : IsValid two_items
two_items-IsValid =
    workqueue_schedule-IsValid (workqueue_schedule-IsValid blank-IsValid 4096 7) 8192 9

-- A callback that adds its argument to a total.
abbrev add_arg : ℕ → ℕ → ℕ → ℕ
add_arg func arg total = total + arg

workqueue_run_pending-Runs_example :
    let (ran, w, q) = workqueue_run_pending (on_world add_arg) 1 (0, two_items) in
    (ran ≡ min (run_limit 1) (length (contents two_items)))
    × (w ≡ act_all add_arg (take (run_limit 1) (contents two_items)) 0)
    × (contents q ≡ drop (run_limit 1) (contents two_items))
workqueue_run_pending-Runs_example =
    workqueue_run_pending-Runs add_arg 1 0 two_items two_items-IsValid

abbrev three : ℕ
three = 3

-- A callback that schedules itself again.
abbrev again : ℕ → ℕ → ℕ × Workqueue → ℕ × Workqueue
again func arg (w, q) = (w, (workqueue_schedule q func arg).1)
