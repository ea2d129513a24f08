-- ===== src/Workqueue.antt =====
-- kernel/workqueue.c: deferred work in a ring of 64 entries. A function pointer and its argument
-- are addresses, and 0 is the null pointer. Each operation is one critical section of
-- `workqueue_lock`; the device entry and the shell commands are left out.
mod Tests
pub mod Queue
pub mod Run
use my_os.Prelude.{
  ℕ, zero, suc, ◌+◌, ◌-◌, ◌%◌, Bool, true, false, List, Option, none, some, add32, add64, leb, ltb,
  ◌==◌, ◌||◌, if◌then◌else◌, get_or, set, replicate,
}

abbrev pub workqueue_size : ℕ
workqueue_size = 64

-- `work_item_t`.
pub record WorkItem : Type 0 where
  pub func : ℕ
  pub arg : ℕ
  pub seq : ℕ

abbrev pub no_item : WorkItem
no_item = record { func = 0; arg = 0; seq = 0 }

-- The static variables.
pub record Workqueue : Type 0 where
  pub items : List WorkItem
  pub head : ℕ
  pub tail : ℕ
  pub count : ℕ
  pub next_seq : ℕ
  pub executed : ℕ
  pub dropped : ℕ

abbrev pub next_index : ℕ → ℕ
next_index index = add32 index 1 % workqueue_size

unfoldable pub workqueue_init : Workqueue → Workqueue
workqueue_init q = record q {
  head = 0;
  tail = 0;
  count = 0;
  next_seq = 1;
  executed = 0;
  dropped = 0;
}

unfoldable pub workqueue_schedule : Workqueue → ℕ → ℕ → Bool × Workqueue
workqueue_schedule q func arg =
    let item : WorkItem = record { func = func; arg = arg; seq = q.next_seq } in
    if func == 0
    then (false, q)
    else if leb workqueue_size q.count
    then (false, record q { dropped = add64 q.dropped 1 })
    else (
      true,
      record q {
        items = set q.items q.head item;
        next_seq = add64 q.next_seq 1;
        head = next_index q.head;
        count = add32 q.count 1;
      },
    )

pub workqueue_pop : Workqueue → Option WorkItem × Workqueue
workqueue_pop q = if q.count == 0 then (none, q) else (
  some (get_or q.items q.tail no_item),
  record q { items = set q.items q.tail no_item; tail = next_index q.tail; count = q.count - 1 },
)

-- The callbacks see the queue and a world of their own, and may change both: `call f a` is what
-- `item.func(item.arg)` does.
module _ {ℓ} {W : Type ℓ} (call : ℕ → ℕ → W × Workqueue → W × Workqueue) where
  -- The `while` loop with `left` items left to run.
  pub run_loop : ℕ → ℕ → W × Workqueue → ℕ × W × Workqueue
  run_loop zero ran (w, q) = (ran, w, q)
  run_loop (suc left) ran (w, q) =
      let (popped, q') = workqueue_pop q in
      elim popped [
        | none ↦ (ran, w, q')
        | some item ↦
            let (w', q'') = call item.func item.arg (w, q') in
            run_loop left (add32 ran 1) (w', record q'' { executed = add64 q''.executed 1 })
      ]

  pub workqueue_run_pending : ℕ → W × Workqueue → ℕ × W × Workqueue
  unfolding run_loop
  workqueue_run_pending max_items s =
      let limit =
        if max_items == 0 || ltb workqueue_size max_items then workqueue_size else max_items in
      run_loop limit 0 s
