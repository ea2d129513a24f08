-- ===== src/Wait/Chain.antt =====
-- kernel/wait.c: what a chain of `wait_next` pointers holds, and how the pointer operations of
-- kernel/task.c change it.
use mathlib.Core.Path.{fun_ext}
use my_os.Prelude.{
  ℕ, ◌<◌, ◌≡◌, refl, sym, subst, ap, ◌∙◌, ◌≢◌, inl, inr, true, false, List, [], ◌∷◌, ◌++◌, Option,
  none, some, arith, ◌==◌, ==→eq, ==_false, if◌then◌else◌, Bool-cases, length, get_or, set,
  get_or-set_self, get_or-set_ne, length-set, All,
}
use my_os.Task.{
  Task, Scheduler, TaskState, no_task, task_at, set_state, waiting, ready, is_waiting,
  task_wait_next, task_wait_set_next, task_set_waiting, task_set_ready,
}

-- The positions met from `h` on, following `f`.
abbrev pub Chain : (ℕ → Option ℕ) → Option ℕ → List ℕ → Type 0
Chain f h [] = h ≡ none
Chain f h (i ∷ l) = (h ≡ some i) × Chain f (f i) l

abbrev pub NotIn : ℕ → List ℕ → Type 0
NotIn i l = All (λ j. i ≢ j) l

abbrev pub Distinct : List ℕ → Type 0
Distinct [] = Unit
Distinct (i ∷ l) = NotIn i l × Distinct l

abbrev pub last : List ℕ → Option ℕ
last [] = none
last (i ∷ []) = some i
last (i ∷ j ∷ l) = last (j ∷ l)

abbrev pub point : (ℕ → Option ℕ) → ℕ → Option ℕ → ℕ → Option ℕ
point f i n j = if i == j then n else f j

-- A pointer outside the chain does not matter.
pub Chain-point :
    (f : ℕ → Option ℕ) (i : ℕ) (n h : Option ℕ) (l : List ℕ)
    → NotIn i l
    → Chain f h l
    → Chain (point f i n) h l
Chain-point f i n h [] out c = c
Chain-point f i n h (j ∷ l) out c =
    let other : (i == j) ≡ false = ground arith in
    (c.0, rw other (Chain-point f i n (f j) l out.1 c.1))

last-ne : (i h : ℕ) (l : List ℕ) → last l ≡ some i → NotIn h l → h ≢ i
last-ne i h [] e out = λ _. absurd (cc)
last-ne i h (j ∷ []) e out = λ same. out.0 (ground arith)
last-ne i h (j ∷ k ∷ l) e out = last-ne i h (k ∷ l) e out.1

pub last-push : (l : List ℕ) (c : ℕ) → last (l ++ (c ∷ [])) ≡ some c
last-push [] c = refl
last-push (i ∷ []) c = refl
last-push (i ∷ j ∷ l) c = last-push (j ∷ l) c

-- Pointing the last entry at a new end adds that end.
pub Chain-push :
    (f : ℕ → Option ℕ) (i h c : ℕ) (l : List ℕ)
    → last (h ∷ l) ≡ some i
    → Distinct (h ∷ l)
    → NotIn c (h ∷ l)
    → f c ≡ none
    → Chain f (some h) (h ∷ l)
    → Chain (point f i (some c)) (some h) (h ∷ l ++ (c ∷ []))
Chain-push f i h c [] e d out fresh ch =
    let here : h ≡ i = ground arith in
    let at : (i == h) ≡ true = ground arith in
    let other : (i == c) ≡ false = ground arith in (refl, rw at (refl, rw other fresh))
Chain-push f i h c (j ∷ l) e d out fresh ch =
    let other : (i == h) ≡ false = let ne = last-ne i h (j ∷ l) e d.0 in ground arith in
    let rest = Chain-push f i j c l e d.1 out.1 fresh (refl, ch.1.1) in
    (refl, rw other (rw ch.1.0 rest))

-- The pointer operations of the scheduler, seen through `task_wait_next`.
module _ (s : Scheduler) (i : ℕ) (inside : i < length s.tasks) where
  pub wait_next-set_next :
      (n : Option ℕ) → task_wait_next (task_wait_set_next s i n) ≡ point (task_wait_next s) i n
  unfolding task_wait_next task_wait_set_next
  wait_next-set_next n = fun_ext λ j.
      let t = task_at s i in
      let u : Task = record t { wait_next = n } in
      elim (Bool-cases (i == j)) [
        | inl e ↦
            let self =
              ap (λ (x : Task). x.wait_next) (get_or-set_self s.tasks i u no_task inside) in
            let at = ap (λ k. (get_or (set s.tasks i u) k no_task).wait_next) (==→eq i j e) in
            rw e (sym at ∙ self)
        | inr e ↦
            rw e (
              ap (λ (x : Task). x.wait_next) (get_or-set_ne s.tasks i j u no_task (==_false i j e)))
      ]

  state_kept : (st : TaskState) → task_wait_next (set_state s i st) ≡ task_wait_next s
  unfolding task_wait_next
  state_kept st = fun_ext λ j.
      let t = task_at s i in
      let u : Task = record t { state = st } in
      elim (Bool-cases (i == j)) [
        | inl e ↦
            let self =
              ap (λ (x : Task). x.wait_next) (get_or-set_self s.tasks i u no_task inside) in
            subst (λ k. (get_or (set s.tasks i u) k no_task).wait_next ≡ (task_at s k).wait_next)
              (==→eq i j e) self
        | inr e ↦
            ap (λ (x : Task). x.wait_next) (get_or-set_ne s.tasks i j u no_task (==_false i j e))
      ]

  pub wait_next-set_waiting : task_wait_next (task_set_waiting s i) ≡ task_wait_next s
  unfolding task_set_waiting
  wait_next-set_waiting = state_kept waiting

  pub wait_next-set_ready : task_wait_next (task_set_ready s i) ≡ task_wait_next s
  unfolding task_set_ready
  wait_next-set_ready = elim (Bool-cases (is_waiting (task_at s i).state)) [
    | inl e ↦ rw (e, task_set_ready) (state_kept ready)
    | inr e ↦ rw (e, task_set_ready) refl
  ]

pub length-set_next :
    (s : Scheduler) (i : ℕ) (n : Option ℕ)
    → length (task_wait_set_next s i n).tasks ≡ length s.tasks
unfolding task_wait_set_next
length-set_next s i n = let t = task_at s i in length-set s.tasks i (record t { wait_next = n })

pub length-set_waiting :
    (s : Scheduler) (i : ℕ) → length (task_set_waiting s i).tasks ≡ length s.tasks
unfolding task_set_waiting
length-set_waiting s i = let t = task_at s i in length-set s.tasks i (record t { state = waiting })

pub length-set_ready : (s : Scheduler) (i : ℕ) → length (task_set_ready s i).tasks ≡ length s.tasks
unfolding task_set_ready
length-set_ready s i =
    let t = task_at s i in ground (arith, length-set s.tasks i (record t { state = ready }))
