-- ===== src/Workqueue/Queue.antt =====
-- kernel/workqueue.c: workqueue_schedule and workqueue_pop against the list of the waiting items.
use my_os.Prelude.{
  ℕ, ◌+◌, ◌-◌, ◌%◌, ◌≤◌, ◌<◌, ◌≡◌, ◌≢◌, Bool, true, false, List, [], ◌∷◌, ◌++◌, Option, none, some,
  arith, add64, leb, ◌==◌, if◌then◌else◌, length, set, length-set,
}
use my_os.Prelude.Window.{window, length-window, window-pop, window-push, window-set_ne}
use my_os.Workqueue.{
  Workqueue, WorkItem, workqueue_size, no_item, workqueue_init, workqueue_schedule, workqueue_pop,
}

-- The items from the oldest to the newest.
abbrev pub contents : Workqueue → List WorkItem
contents q = window workqueue_size no_item q.items q.tail q.count

-- The indices lie in the array, and `head` is `count` entries behind `tail`.
pub record IsValid (q : Workqueue) : Type 0 where
  pub sized : length q.items ≡ workqueue_size
  pub tail_in : q.tail < workqueue_size
  pub count_in : q.count ≤ workqueue_size
  pub head_at : q.head ≡ (q.tail + q.count) % workqueue_size

pub workqueue_init-IsValid :
    (q : Workqueue) → length q.items ≡ workqueue_size → IsValid (workqueue_init q)
unfolding workqueue_init
workqueue_init-IsValid q h = omega arith

-- What scheduling does: a null function is refused, a full queue drops the item and counts it,
-- and otherwise the item goes behind all others under the next number.
abbrev pub Schedules : Workqueue → ℕ → ℕ → Bool × Workqueue → Type 0
Schedules q func arg (result, q') =
    if func == 0
    then (result ≡ false) × (q' ≡ q)
    else if leb workqueue_size (length (contents q))
    then (result ≡ false) × (contents q' ≡ contents q) × (q'.dropped ≡ add64 q.dropped 1)
    else (result ≡ true)
      × (contents q' ≡ contents q ++ (record { func = func; arg = arg; seq = q.next_seq } ∷ []))
      × (q'.next_seq ≡ add64 q.next_seq 1)

-- What popping does: nothing on the empty queue, and otherwise it takes the oldest item.
abbrev pub Pops : Workqueue → Option WorkItem × Workqueue → Type 0
Pops q (none, q') = (contents q ≡ []) × (q' ≡ q)
Pops q (some item, q') = contents q ≡ item ∷ contents q'

module _ {q : Workqueue} (v : IsValid q) where
  length-contents : length (contents q) ≡ q.count
  length-contents = length-window workqueue_size no_item q.items q.tail q.count

  -- `workqueue_schedule` keeps a valid queue valid.
  pub workqueue_schedule-IsValid : (func arg : ℕ) → IsValid (workqueue_schedule q func arg).1
  unfolding workqueue_schedule
  workqueue_schedule-IsValid func arg =
      let item : WorkItem = record { func = func; arg = arg; seq = q.next_seq } in
      ground (arith, length-set q.items q.head item)

  -- On a valid queue, `workqueue_schedule` refuses a null function and leaves the queue, drops and
  -- counts an item behind 64 others, and otherwise puts it, with the next number, behind all
  -- others.
  pub workqueue_schedule-Schedules :
      (func arg : ℕ) → Schedules q func arg (workqueue_schedule q func arg)
  unfolding workqueue_schedule
  workqueue_schedule-Schedules func arg =
      let item : WorkItem = record { func = func; arg = arg; seq = q.next_seq } in
      ground (
        arith,
        length-contents,
        window-push workqueue_size no_item q.items item q.tail q.count q.head,
      )

  pub workqueue_pop-IsValid : IsValid (workqueue_pop q).1
  unfolding workqueue_pop
  workqueue_pop-IsValid = ground (arith, length-set q.items q.tail no_item)

  -- The slot that is cleared lies outside of what remains.
  rest_kept :
      q.count ≢ 0
      → window workqueue_size no_item
          (set q.items q.tail no_item)
          ((q.tail + 1) % workqueue_size)
          (q.count - 1)
        ≡ window workqueue_size no_item q.items ((q.tail + 1) % workqueue_size) (q.count - 1)
  rest_kept some_left =
      window-set_ne workqueue_size no_item q.items no_item ((q.tail + 1) % workqueue_size)
        (q.count - 1) 63 q.tail (omega arith) (omega arith) (omega arith) (omega arith)

  -- On a valid queue, `workqueue_pop` returns nothing and leaves the queue if it is empty, and
  -- otherwise takes the item that was scheduled first.
  pub workqueue_pop-Pops : Pops q (workqueue_pop q)
  unfolding workqueue_pop
  workqueue_pop-Pops =
      ground (arith, rest_kept, window-pop workqueue_size no_item q.items q.tail q.count)
