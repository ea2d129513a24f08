-- ===== src/Workqueue/Run.antt =====
-- kernel/workqueue.c: workqueue_run_pending against the list of the waiting items.
use my_os.Prelude.{
  ℕ, zero, suc, ◌+◌, ◌≤◌, ◌<◌, ◌≡◌, refl, ap, ◌∙◌, List, [], ◌∷◌, none, some, arith, add32, add64,
  ltb, ◌==◌, ◌||◌, u32_mod, if◌then◌else◌, Option-cases, ◌⊎◌, inl, inr, length, take, drop, min,
}
use my_os.Workqueue.{
  Workqueue, WorkItem, workqueue_size, workqueue_pop, run_loop, workqueue_run_pending,
}
use my_os.Workqueue.Queue.{IsValid, contents, Pops, workqueue_pop-Pops, workqueue_pop-IsValid}

-- The bound on the items of one call.
abbrev pub run_limit : ℕ → ℕ
run_limit max_items =
    if max_items == 0 || ltb workqueue_size max_items then workqueue_size else max_items

run_limit-le :
    (max_items : ℕ)
    → (run_limit max_items ≤ workqueue_size) × ((max_items ≡ 0) ⊎ (run_limit max_items ≤ max_items))
run_limit-le max_items = ground arith

module _ {ℓ} {W : Type ℓ} where
  -- A callback that works on the world and leaves the queue.
  abbrev pub on_world : (ℕ → ℕ → W → W) → ℕ → ℕ → W × Workqueue → W × Workqueue
  on_world act func arg (w, q) = (act func arg w, q)

  -- The callbacks of a list of items, in order.
  pub act_all : (ℕ → ℕ → W → W) → List WorkItem → W → W
  act_all act [] w = w
  act_all act (item ∷ items) w = act_all act items (act item.func item.arg w)

  run_loop-le :
      (call : ℕ → ℕ → W × Workqueue → W × Workqueue) (left ran : ℕ) (w : W) (q : Workqueue)
      → ran + left < u32_mod
      → (run_loop call left ran (w, q)).0 ≤ ran + left
  unfolding run_loop
  run_loop-le call zero ran w q h = omega arith
  run_loop-le call (suc left) ran w q h =
      let q' = (workqueue_pop q).1 in
      elim (Option-cases (workqueue_pop q).0) [
        | inl e ↦ rw (e, run_loop) (omega arith)
        | inr (item, e) ↦
            let next = (call item.func item.arg (w, q')).1 in
            let rest =
              run_loop-le call left (add32 ran 1) (call item.func item.arg (w, q')).0
                (record next { executed = add64 next.executed 1 }) (omega arith) in
            rw (e, run_loop) (omega arith)
      ]

  module _ (act : ℕ → ℕ → W → W) where
    -- What `left` rounds do: `ran` goes up by the items run, which are the oldest ones.
    abbrev pub Runs : ℕ → ℕ → W → Workqueue → ℕ × W × Workqueue → Type ℓ
    Runs left ran w q (ran', w', q') =
        (ran' ≡ ran + min left (length (contents q)))
        × (w' ≡ act_all act (take left (contents q)) w)
        × (contents q' ≡ drop left (contents q))

    loop_none :
        (left ran : ℕ) (w : W) (q : Workqueue)
        → (workqueue_pop q).0 ≡ none
        → run_loop (on_world act) (suc left) ran (w, q) ≡ (ran, w, (workqueue_pop q).1)
    unfolding run_loop
    loop_none left ran w q e = rw (e, run_loop)

    -- The queue after an item was taken and run.
    abbrev after_item : Workqueue → Workqueue
    after_item q' = record q' { executed = add64 q'.executed 1 }

    loop_some :
        (left ran : ℕ) (w : W) (q : Workqueue) (item : WorkItem)
        → (workqueue_pop q).0 ≡ some item
        → run_loop (on_world act) (suc left) ran (w, q)
          ≡ run_loop
              (on_world act)
              left
              (add32 ran 1)
              (act item.func item.arg w, after_item (workqueue_pop q).1)
    unfolding run_loop
    loop_some left ran w q item e = rw (e, run_loop)

    run_loop-Runs :
        (left ran : ℕ) (w : W) (q : Workqueue)
        → IsValid q
        → ran + left < u32_mod
        → Runs left ran w q (run_loop (on_world act) left ran (w, q))
    unfolding act_all
    run_loop-Runs zero ran w q v h = unfold run_loop in (omega arith, refl, refl)
    run_loop-Runs (suc left) ran w q v h =
        let q' = (workqueue_pop q).1 in
        let v' = workqueue_pop-IsValid v in
        let popped = workqueue_pop-Pops v in
        elim (Option-cases (workqueue_pop q).0) [
          | inl e ↦ rw (loop_none left ran w q e) (ending (rw e at popped))
          | inr (item, e) ↦
              let rest =
                run_loop-Runs left (add32 ran 1) (act item.func item.arg w) (after_item q')
                  (record {
                    sized = v'.sized;
                    tail_in = v'.tail_in;
                    count_in = v'.count_in;
                    head_at = v'.head_at;
                  })
                  (omega arith) in
              rw (loop_some left ran w q item e) (running item (rw e at popped) rest)
        ]
      where
        ending :
            Pops q (none, (workqueue_pop q).1)
            → Runs (suc left) ran w q (ran, w, (workqueue_pop q).1)
        ending (empty, same) =
            (rw empty (omega arith), rw empty refl, ap contents same ∙ empty ∙ (rw empty refl))

        running :
            (item : WorkItem)
            → Pops q (some item, (workqueue_pop q).1)
            → Runs left (add32 ran 1) (act item.func item.arg w) (after_item (workqueue_pop q).1) (
                run_loop
                  (on_world act)
                  left
                  (add32 ran 1)
                  (act item.func item.arg w, after_item (workqueue_pop q).1))
            → Runs (suc left) ran w q (
                run_loop
                  (on_world act)
                  left
                  (add32 ran 1)
                  (act item.func item.arg w, after_item (workqueue_pop q).1))
        running item popped (count, world, rest) =
            (rw popped (omega arith), rw popped world, rw popped rest)

    -- On a valid queue, with callbacks that leave the queue, one call runs, in the order in which
    -- they were scheduled, the oldest items up to the bound, leaves the others, and returns how
    -- many it ran.
    pub workqueue_run_pending-Runs :
        (max_items : ℕ) (w : W) (q : Workqueue)
        → IsValid q
        → let (ran, w', q') = workqueue_run_pending (on_world act) max_items (w, q) in
          (ran ≡ min (run_limit max_items) (length (contents q)))
          × (w' ≡ act_all act (take (run_limit max_items) (contents q)) w)
          × (contents q' ≡ drop (run_limit max_items) (contents q))
    unfolding workqueue_run_pending
    workqueue_run_pending-Runs max_items w q v =
        let (count, world, rest) = run_loop-Runs (run_limit max_items) 0 w q v (ground arith) in
        (omega arith, world, rest)

  -- Whatever the callbacks do, a call runs at most 64 items, and no more than the caller asked for.
  pub workqueue_run_pending-le :
      (call : ℕ → ℕ → W × Workqueue → W × Workqueue) (max_items : ℕ) (s : W × Workqueue)
      → ((workqueue_run_pending call max_items s).0 ≤ workqueue_size)
        × ((max_items ≡ 0) ⊎ ((workqueue_run_pending call max_items s).0 ≤ max_items))
  unfolding workqueue_run_pending
  workqueue_run_pending-le call max_items (w, q) =
      let bound =
        run_loop-le call (run_limit max_items) 0 w q (omega (arith, run_limit-le max_items)) in
      let limit = run_limit-le max_items in (omega arith, omega arith)
