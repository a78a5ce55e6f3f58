-- ===== src/Taskqueue/Serve.antt =====
-- The worker of the task queue, left to itself, serves every task that is queued.
use rtems_libbsdport.Prelude.{
  ℕ, zero, suc, ◌≡◌, refl, ap, subst, ◌∙◌, ◌≢◌, true, ◌||◌, List, [], ◌∷◌, arith,
}
use rtems_libbsdport.Prelude.Memory.{null}
use rtems_libbsdport.Taskqueue.{anchor}
use rtems_libbsdport.Taskqueue.Chain.{IsQueue}
use rtems_libbsdport.Taskqueue.Work.{extract-IsQueue, name_head, head-ne-null, detach-IsQueue}
use rtems_libbsdport.Taskqueue.Enqueue.{is_empty}
use rtems_libbsdport.Taskqueue.Worker.{Place, System, Run, Reach, Runs}
use rtems_libbsdport.Taskqueue.Wakeup.{Alarmed, Reach-Alarmed, detached, same-IsQueue, null-absent}

-- The worker comes to the place `w`, with the lists `xs` and `ys` left, without a receive.
abbrev Served : System → (w : Place) → (xs ys : List ℕ) → Type 0
Served s w xs ys =
    (t : System) × Runs s t × (t.place ≡ w) × (t.event ≡ s.event) × IsQueue t.tq xs ys (detached w)

calls-Served :
    (s : System) (xs ys : List ℕ) (p fn arg i : ℕ)
    → s.place ≡ Place.calling p fn arg i
    → IsQueue s.tq xs ys p
    → Served s (Place.working p) xs ys
calls-Served s xs ys p fn arg zero w q =
    (_, Runs.more (Run.go_on p fn arg w) Runs.here, refl, refl, q)
calls-Served s xs ys p fn arg (suc i) w q =
    let (t, r, wt, et, qt) = calls-Served _ xs ys p fn arg i refl (same-IsQueue s.tq _ xs ys p q) in
    (t, Runs.more (Run.call p fn arg i w) r, wt, et, qt)

Runs-trans : {s t u : System} → Runs s t → Runs t u → Runs s u
Runs-trans Runs.here r = r
Runs-trans (Runs.more h r) r' = Runs.more h (Runs-trans r r')

work-Served :
    (s : System) (xs ys : List ℕ) (p : ℕ)
    → s.place ≡ Place.working p
    → IsQueue s.tq xs ys p
    → Served s Place.waiting xs []
work-Served s xs [] p w q = (
  _,
  Runs.more (Run.finish (w ∙ ap Place.working q.rest)) Runs.here,
  refl,
  refl,
  subst (IsQueue s.tq xs []) q.rest q,
)
work-Served s xs (y ∷ ys) p w q =
    let q₁ = extract-IsQueue s.tq xs ys p (name_head s.tq xs ys p y q) in
    let h : p ≢ null = λ e. absurd (ground (arith, e, head-ne-null s.tq xs ys p y q)) in
    let (t, r, wt, et, qt) = calls-Served _ xs ys (s.tq.ta_next p) _ _ _ refl q₁ in
    let (u, r', wu, eu, qu) = work-Served t xs ys (s.tq.ta_next p) wt qt in
    (u, Runs.more (Run.take_off p w h) (Runs-trans r r'), wu, eu ∙ et, qu)

-- From the receive of the event on: the whole queue is worked off.
woken-Served :
    (s : System) (xs : List ℕ)
    → s.place ≡ Place.woken
    → IsQueue s.tq xs [] null
    → Served s Place.waiting [] []
woken-Served s xs w q =
    let (t, r, wt, et, qt) =
      work-Served _ [] xs (s.tq.ta_next anchor) refl (detach-IsQueue s.tq xs q) in
    (t, Runs.more (Run.begin w) r, wt, et, qt)

-- The worker has nothing left to do.
abbrev pub Idle : System → Type 0
Idle t =
    (t.place ≡ Place.waiting) × (t.tq.ta_next anchor ≡ null) × ((a : ℕ) → t.tq.ta_pending a ≡ 0)

Served-Idle : (s : System) → Served s Place.waiting [] [] → (t : System) × Runs s t × Idle t
Served-Idle s (t, r, w, e, q) = (t, r, (w, q.chain, λ a. ground (arith, q.queued a)))

waiting-serves :
    (s : System) (xs : List ℕ)
    → s.place ≡ Place.waiting
    → (is_empty xs || s.event) ≡ true
    → IsQueue s.tq xs [] null
    → (t : System) × Runs s t × Idle t
waiting-serves s [] w a q = (s, Runs.here, (w, q.chain, λ a. ground (arith, q.queued a)))
waiting-serves s (x ∷ xs) w a q =
    let (t, r, h) = Served-Idle _ (woken-Served _ (x ∷ xs) refl q) in
    (t, Runs.more (Run.receive w a) r, h)

then_waiting :
    (s : System) (xs : List ℕ)
    → (is_empty xs || s.event) ≡ true
    → Served s Place.waiting xs []
    → (t : System) × Runs s t × Idle t
then_waiting s xs a (t, r, w, e, q) =
    let (u, r', h) = waiting-serves t xs w (rw e a) q in (u, Runs-trans r r', h)

Alarmed-serves :
    (s : System) (w : Place) → s.place ≡ w → Alarmed s → (t : System) × Runs s t × Idle t
Alarmed-serves s Place.waiting w (xs, ys, a) =
    let q = subst (λ w. IsQueue s.tq xs ys (detached w)) w a.queue in
    let q₁ = subst (λ ys. IsQueue s.tq xs ys null) (null-absent s.tq xs ys q) q in
    let h = rw w at a.alarm in waiting-serves s xs w (ground arith) q₁
Alarmed-serves s Place.woken w (xs, ys, a) =
    let q = subst (λ w. IsQueue s.tq xs ys (detached w)) w a.queue in
    let q₁ = subst (λ ys. IsQueue s.tq xs ys null) (null-absent s.tq xs ys q) q in
    Served-Idle s (woken-Served s xs w q₁)
Alarmed-serves s (Place.working p) w (xs, ys, a) =
    let q = subst (λ w. IsQueue s.tq xs ys (detached w)) w a.queue in
    let h = rw w at a.alarm in then_waiting s xs (ground arith) (work-Served s xs ys p w q)
Alarmed-serves s (Place.calling p fn arg i) w (xs, ys, a) =
    let q = subst (λ w. IsQueue s.tq xs ys (detached w)) w a.queue in
    let h = rw w at a.alarm in
    let (t, r, wt, et, qt) = calls-Served s xs ys p fn arg i w q in
    let (u, r', wu, eu, qu) = work-Served t xs ys p wt qt in
    then_waiting s xs (ground arith) (u, Runs-trans r r', wu, eu ∙ et, qu)

-- From every state that enqueues and steps of the worker reach, in any order, the worker alone comes
-- back to its receive in finitely many steps, with the queue empty and no call of a task pending.
pub worker_serves : (s : System) → Reach s → (t : System) × Runs s t × Idle t
worker_serves s r = Alarmed-serves s s.place refl (Reach-Alarmed r)
