-- ===== src/Taskqueue/Work.antt =====
-- taskqueue_work: it ends, it keeps the queue well formed whatever the callbacks and the interrupt
-- handlers enqueue, and it calls each queued task as often as it was enqueued.
use mathlib.Core.List.{append_assoc, append-nil}
use rtems_libbsdport.Prelude.{
  ℕ, zero, suc, ◌<◌, ◌≡◌, refl, sym, subst, ap, ◌∙◌, false, some, List, [], ◌∷◌, ◌++◌, arith, ◌==◌,
}
use rtems_libbsdport.Prelude.Lists.{
  has, length, IsDistinct-remove, IsDistinct-absent, IsDistinct-right, has-append,
}
use rtems_libbsdport.Prelude.Memory.{null, update}
use rtems_libbsdport.Taskqueue.{
  Tq, Effect, called, Env, anchor, enqueue_all, call_times, extract, work_loop, detach,
  taskqueue_work,
}
use rtems_libbsdport.Taskqueue.Chain.{Chain, Seg, IsQueue, Chain-update, Seg-update}
use rtems_libbsdport.Taskqueue.Enqueue.{AllTasks, arrive_all, enqueue_all-IsQueue, is_empty}

-- Callbacks and interrupt handlers enqueue proper tasks only.
pub record IsEnv (env : Env) : Type 0 where
  pub calls : (fn arg i : ℕ) (s : Tq) → AllTasks (env.call fn arg i s)
  pub interrupts : (s : Tq) → AllTasks (env.interrupt s)

-- Some order of the queue is left.
abbrev pub Queued : Tq → List ℕ → ℕ → Type 0
Queued s ys p = (xs : List ℕ) × IsQueue s xs ys p

Chain-Seg : (next : ℕ → ℕ) (p : ℕ) (xs : List ℕ) → Chain next p xs → Seg next (next p) xs
Chain-Seg next p [] c = c
Chain-Seg next p (x ∷ xs) c = c

pub call_times-Queued :
    (env : Env) (fn arg i : ℕ) (s : Tq) (ys : List ℕ) (p : ℕ)
    → IsEnv env
    → Queued s ys p
    → Queued (call_times env fn arg i s) ys p
unfolding call_times
call_times-Queued env fn arg zero s ys p e q = q
call_times-Queued env fn arg (suc i) s ys p e (xs, q) =
    let s' : Tq = record s { effects = s.effects ++ (called fn arg (suc i) ∷ []) } in
    let q' : IsQueue s' xs ys p = record {
      chain = q.chain;
      tail = q.tail;
      rest = q.rest;
      distinct = q.distinct;
      queued = q.queued;
    } in
    let tas = env.call fn arg (suc i) s' in
    call_times-Queued env fn arg i (enqueue_all s' tas) ys p e
      (arrive_all tas xs ys, enqueue_all-IsQueue s' tas xs ys p q' (e.calls fn arg (suc i) s'))

pub extract-IsQueue :
    (s : Tq) (xs ys : List ℕ) (y : ℕ)
    → IsQueue s xs (y ∷ ys) y
    → IsQueue (extract s y) xs ys (s.ta_next y)
unfolding extract
extract-IsQueue s xs ys y q = record {
  chain = Chain-update s.ta_next y null anchor xs q.chain absent;
  tail = q.tail;
  rest =
      Seg-update s.ta_next y null (s.ta_next y) ys (Chain-Seg s.ta_next y ys q.rest.1)
        (IsDistinct-right xs (y ∷ ys) q.distinct.1.1).0;
  distinct = IsDistinct-remove y (null ∷ anchor ∷ xs) ys q.distinct;
  queued = λ a. ground (
    arith,
    q.queued a,
    has-append a xs (y ∷ ys),
    has-append a xs ys,
    IsDistinct-absent y xs ys q.distinct.1.1,
  );
}
  where
    absent : has y (anchor ∷ xs) ≡ false
    absent = ground (arith, IsDistinct-absent y (anchor ∷ xs) ys q.distinct.1, has-append y xs ys)

pub name_head :
    (s : Tq) (xs ys : List ℕ) (p y : ℕ) → IsQueue s xs (y ∷ ys) p → IsQueue s xs (p ∷ ys) p
name_head s xs ys p y q = subst (λ z. IsQueue s xs (z ∷ ys) p) (sym q.rest.0) q

pub head-ne-null :
    (s : Tq) (xs ys : List ℕ) (p y : ℕ) → IsQueue s xs (y ∷ ys) p → (p == null) ≡ false
head-ne-null s xs ys p y q = ground (arith, q.distinct.0, q.rest.0, has-append null xs (y ∷ ys))

pub detach-IsQueue :
    (s : Tq) (xs : List ℕ) → IsQueue s xs [] null → IsQueue (detach s) [] xs (s.ta_next anchor)
unfolding detach
detach-IsQueue s xs q = record {
  chain = ground arith;
  tail = refl;
  rest =
      Seg-update s.ta_next anchor null (s.ta_next anchor) xs (Chain-Seg s.ta_next anchor xs q.chain)
        (rw (append-nil xs) at q.distinct.1.0);
  distinct = rw (append-nil xs) at q.distinct;
  queued = λ a. rw (append-nil xs) at (q.queued a);
}

pub first-null :
    (s : Tq) (zs : List ℕ) → IsQueue s zs [] null → (s.ta_next anchor == null) ≡ is_empty zs
first-null s [] q = ground (arith, q.chain)
first-null s (z ∷ zs) q = ground (arith, q.chain.0, q.distinct.0)

-- With fuel for the detached list the loop ends, and nothing is left on that list.
work_loop-Queued :
    (env : Env) (fuel p : ℕ) (s : Tq) (xs ys : List ℕ)
    → IsEnv env
    → IsQueue s xs ys p
    → length ys < fuel
    → (s' : Tq) × (work_loop env fuel p s ≡ some s') × Queued s' [] null
unfolding work_loop
work_loop-Queued env zero p s xs ys e q h = absurd (omega arith)
work_loop-Queued env (suc fuel) p s xs [] e q h = (
  s,
  ground (arith, q.rest),
  (
    xs,
    record {
      chain = q.chain;
      tail = q.tail;
      rest = refl;
      distinct = q.distinct;
      queued = q.queued;
    },
  ),
)
work_loop-Queued env (suc fuel) p s xs (y ∷ ys) e q h =
    let q₁ = enqueue_all-IsQueue s (env.interrupt s) xs (y ∷ ys) p q (e.interrupts s) in
    let s₁ = enqueue_all s (env.interrupt s) in
    let q₂ = extract-IsQueue s₁ _ ys p (name_head s₁ _ ys p y q₁) in
    let (xs₃, q₃) =
      call_times-Queued env (s₁.ta_fn p) (s₁.ta_fn_arg p) (s₁.ta_pending p) (extract s₁ p) ys
        (s₁.ta_next p) e (_, q₂) in
    rw (head-ne-null s xs ys p y q)
      (work_loop-Queued env fuel (s₁.ta_next p) _ xs₃ ys e q₃ (omega arith))

-- With fuel for the tasks that are queued, taskqueue_work ends, whatever proper tasks its callbacks
-- and the interrupts enqueue while it runs; the queue is well formed then, with no task left on the
-- detached list, and the returned pointer is null exactly when the queue is empty.
pub work-IsQueue :
    (env : Env) (fuel : ℕ) (s : Tq) (xs : List ℕ)
    → IsEnv env
    → IsQueue s xs [] null
    → length xs < fuel
    → (r : ℕ) × (s' : Tq) × (zs : List ℕ) × (taskqueue_work env fuel s ≡ some (r, s'))
      × IsQueue s' zs [] null
      × ((r == null) ≡ is_empty zs)
unfolding taskqueue_work
work-IsQueue env fuel s xs e q h =
    let (s', run, (zs, q')) =
      work_loop-Queued env fuel (s.ta_next anchor) (detach s) [] xs e (detach-IsQueue s xs q) h in
    (s'.ta_next anchor, s', zs, rw (run, taskqueue_work), q', first-null s' zs q')

-- No function enqueues, and no interrupt does.
abbrev pub quiet : Env
quiet = record { call = λ fn arg i s. []; interrupt = λ s. [] }

-- The calls that `ta_pending = n` stands for: the count goes down to 1.
abbrev pub countdown : (fn arg n : ℕ) → List Effect
countdown fn arg zero = []
countdown fn arg (suc n) = called fn arg (suc n) ∷ countdown fn arg n

-- The calls that the tasks `xs` have pending, task by task.
abbrev pub calls_of : (ta_fn ta_fn_arg ta_pending : ℕ → ℕ) → List ℕ → List Effect
calls_of fn arg pending [] = []
calls_of fn arg pending (x ∷ xs) =
    countdown (fn x) (arg x) (pending x) ++ calls_of fn arg pending xs

pub call_times-quiet :
    (fn arg i : ℕ) (s : Tq)
    → call_times quiet fn arg i s ≡ record s { effects = s.effects ++ countdown fn arg i }
unfolding call_times
call_times-quiet fn arg zero s = rw append-nil
call_times-quiet fn arg (suc i) s = rw (call_times-quiet fn arg i) (rw append_assoc)

calls_of-update :
    (fn arg pending : ℕ → ℕ) (a v : ℕ) (xs : List ℕ)
    → has a xs ≡ false
    → calls_of fn arg (update pending a v) xs ≡ calls_of fn arg pending xs
calls_of-update fn arg pending a v [] h = refl
calls_of-update fn arg pending a v (x ∷ xs) h =
    ground (arith, calls_of-update fn arg pending a v xs)

work_loop-quiet :
    (fuel p : ℕ) (s : Tq) (xs ys : List ℕ)
    → IsQueue s xs ys p
    → length ys < fuel
    → (s' : Tq) × (work_loop quiet fuel p s ≡ some s')
      × IsQueue s' xs [] null
      × (s'.effects ≡ s.effects ++ calls_of s.ta_fn s.ta_fn_arg s.ta_pending ys)
unfolding work_loop enqueue_all
work_loop-quiet zero p s xs ys q h = absurd (omega arith)
work_loop-quiet (suc fuel) p s xs [] q h = (
  s,
  ground (arith, q.rest),
  record { chain = q.chain; tail = q.tail; rest = refl; distinct = q.distinct; queued = q.queued },
  sym (append-nil s.effects),
)
work_loop-quiet (suc fuel) p s xs (y ∷ ys) q h =
    let q₁ = name_head s xs ys p y q in
    let q₂ = extract-IsQueue s xs ys p q₁ in
    let out = countdown (s.ta_fn p) (s.ta_fn_arg p) (s.ta_pending p) in
    let s₃ : Tq = record (extract s p) { effects = (extract s p).effects ++ out } in
    let q₃ : IsQueue s₃ xs ys (s.ta_next p) = record {
      chain = q₂.chain;
      tail = q₂.tail;
      rest = q₂.rest;
      distinct = q₂.distinct;
      queued = q₂.queued;
    } in
    let (s', run, q', log) = work_loop-quiet fuel (s.ta_next p) s₃ xs ys q₃ (omega arith) in
    (
      s',
      rw (head-ne-null s xs ys p y q, call_times-quiet) run,
      q',
      log
          ∙ append_assoc s.effects out _
          ∙ ap (λ c. s.effects ++ (out ++ c))
              (calls_of-update s.ta_fn s.ta_fn_arg s.ta_pending p 0 ys
                (IsDistinct-right xs (p ∷ ys) q₁.distinct.1.1).0)
          ∙ ap
              (λ z.
                s.effects
                ++ (countdown (s.ta_fn z) (s.ta_fn_arg z) (s.ta_pending z)
                    ++ calls_of s.ta_fn s.ta_fn_arg s.ta_pending ys))
              q.rest.0,
    )

-- In a quiet environment taskqueue_work calls exactly what the queued tasks have pending, in the
-- order of the queue and with the count going down to 1; it leaves the queue empty, every count at
-- zero, and returns null.
pub work-quiet :
    (fuel : ℕ) (s : Tq) (xs : List ℕ)
    → IsQueue s xs [] null
    → length xs < fuel
    → (s' : Tq) × (taskqueue_work quiet fuel s ≡ some (null, s'))
      × IsQueue s' [] [] null
      × (s'.effects ≡ s.effects ++ calls_of s.ta_fn s.ta_fn_arg s.ta_pending xs)
unfolding taskqueue_work detach
work-quiet fuel s xs q h =
    let (s', run, q', log) =
      work_loop-quiet fuel (s.ta_next anchor) (detach s) [] xs (detach-IsQueue s xs q) h in
    (s', rw (run, taskqueue_work) (ap (λ (r : ℕ). some (r, s')) q'.chain), q', log)
