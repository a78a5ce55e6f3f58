-- ===== src/Taskqueue/Wakeup.antt =====
-- No wake-up of the worker is lost, and the worker serves every task that is queued.
use rtems_libbsdport.Prelude.{
  ℕ, ◌≡◌, refl, subst, ◌≢◌, Bool, true, false, ◌||◌, List, [], ◌∷◌, ◌++◌, arith, Bool-cases, inl,
  inr, ◌⊎◌,
}
use rtems_libbsdport.Prelude.Lists.{has, length-append, has-append}
use rtems_libbsdport.Prelude.Memory.{null}
use rtems_libbsdport.Taskqueue.{Tq, Effect, event_sent, anchor}
use rtems_libbsdport.Taskqueue.Chain.{IsQueue}
use rtems_libbsdport.Taskqueue.Enqueue.{IsTask, arrive, enqueue-IsQueue, enqueue-wakes, is_empty}
use rtems_libbsdport.Taskqueue.Work.{extract-IsQueue, name_head, detach-IsQueue}
use rtems_libbsdport.Taskqueue.Worker.{Place, System, Run, Step, Reach, IsStart, is_sent}

-- The detached list that the worker holds.
abbrev pub detached : Place → ℕ
detached Place.waiting = null
detached Place.woken = null
detached (Place.working p) = p
detached (Place.calling p fn arg i) = p

abbrev is_woken : Place → Bool
is_woken Place.woken = true
is_woken Place.waiting = false
is_woken (Place.working p) = false
is_woken (Place.calling p fn arg i) = false

-- The queue is well formed, and the worker has been alarmed where a task waits: the event is
-- pending, or it has been received and the queue not yet been detached.
pub record IsAlarmed (s : System) (xs ys : List ℕ) : Type 0 where
  pub queue : IsQueue s.tq xs ys (detached s.place)
  pub alarm : (is_empty xs || (s.event || is_woken s.place)) ≡ true

abbrev pub Alarmed : System → Type 0
Alarmed s = (xs : List ℕ) × (ys : List ℕ) × IsAlarmed s xs ys

is_sent_first :
    (s : Tq) (ys : List ℕ) (p ta : ℕ)
    → IsQueue s [] ys p
    → IsTask ta
    → has ta ys ≡ false
    → is_sent s ta ≡ true
is_sent_first s ys p ta q t h =
    rw (enqueue-wakes s [] ys p ta q t h)
      (ground (arith, length-append s.effects (event_sent s.tid ∷ [])))

arrive_alarm :
    (s : Tq) (xs ys : List ℕ) (p ta : ℕ) (event woken : Bool)
    → IsQueue s xs ys p
    → IsTask ta
    → (is_empty xs || (event || woken)) ≡ true
    → (is_empty (arrive ta xs ys) || ((event || is_sent s ta) || woken)) ≡ true
arrive_alarm s [] ys p ta event woken q t a = elim (Bool-cases (has ta ys)) [
  | inl h ↦ rw h refl
  | inr h ↦ rw (h, is_sent_first s ys p ta q t h) (ground arith)
]
arrive_alarm s (x ∷ xs) ys p ta event woken q t a = elim (Bool-cases (has ta ((x ∷ xs) ++ ys))) [
  | inl h ↦ rw h (ground arith)
  | inr h ↦ rw h (ground arith)
]

pub null-absent : (s : Tq) (xs ys : List ℕ) → IsQueue s xs ys null → ys ≡ []
null-absent s xs [] q = refl
null-absent s xs (y ∷ ys) q =
    absurd (ground (arith, q.rest.0, q.distinct.0, has-append null xs (y ∷ ys)))

pub rest-cons :
    (s : Tq) (xs ys : List ℕ) (p : ℕ)
    → IsQueue s xs ys p
    → p ≢ null
    → (zs : List ℕ) × IsQueue s xs (p ∷ zs) p
rest-cons s xs [] p q h = absurd (h q.rest)
rest-cons s xs (y ∷ ys) p q h = (ys, name_head s xs ys p y q)

pub same-IsQueue :
    (s : Tq) (effects : List Effect) (xs ys : List ℕ) (p : ℕ)
    → IsQueue s xs ys p
    → IsQueue (record s { effects = effects }) xs ys p
same-IsQueue s effects xs ys p q = record {
  chain = q.chain;
  tail = q.tail;
  rest = q.rest;
  distinct = q.distinct;
  queued = q.queued;
}

Run-Alarmed : {s t : System} → Run s t → Alarmed s → Alarmed t
Run-Alarmed {s} (Run.receive w e) (xs, ys, a) = (
  xs,
  ys,
  record { queue = subst (λ w. IsQueue s.tq xs ys (detached w)) w a.queue; alarm = ground arith },
)
Run-Alarmed {s} (Run.begin w) (xs, ys, a) =
    let q = subst (λ w. IsQueue s.tq xs ys (detached w)) w a.queue in
    let q₁ = subst (λ ys. IsQueue s.tq xs ys null) (null-absent s.tq xs ys q) q in
    ([], xs, record { queue = detach-IsQueue s.tq xs q₁; alarm = refl })
Run-Alarmed {s} (Run.take_off p w h) (xs, ys, a) =
    let (zs, q) =
      rest-cons s.tq xs ys p (subst (λ w. IsQueue s.tq xs ys (detached w)) w a.queue) h in
    (xs, zs, record { queue = extract-IsQueue s.tq xs zs p q; alarm = rw w at a.alarm })
Run-Alarmed {s} (Run.call p fn arg i w) (xs, ys, a) = (
  xs,
  ys,
  record {
    queue = same-IsQueue s.tq _ xs ys p (subst (λ w. IsQueue s.tq xs ys (detached w)) w a.queue);
    alarm = rw w at a.alarm;
  },
)
Run-Alarmed {s} (Run.go_on p fn arg w) (xs, ys, a) = (
  xs,
  ys,
  record {
    queue = subst (λ w. IsQueue s.tq xs ys (detached w)) w a.queue;
    alarm = rw w at a.alarm;
  },
)
Run-Alarmed {s} (Run.finish w) (xs, ys, a) = (
  xs,
  ys,
  record {
    queue = subst (λ w. IsQueue s.tq xs ys (detached w)) w a.queue;
    alarm = rw w at a.alarm;
  },
)

Step-Alarmed : {s t : System} → Step s t → Alarmed s → Alarmed t
Step-Alarmed (Step.run r) a = Run-Alarmed r a
Step-Alarmed {s} (Step.arrive ta h) (xs, ys, a) = (
  arrive ta xs ys,
  ys,
  record {
    queue = enqueue-IsQueue s.tq xs ys (detached s.place) a.queue ta h;
    alarm =
        arrive_alarm s.tq xs ys (detached s.place) ta s.event (is_woken s.place) a.queue h a.alarm;
  },
)

start-Alarmed : (s : System) → IsStart s → Alarmed s
start-Alarmed s (w, n, e, p) = (
  [],
  [],
  record {
    queue = record {
      chain = n;
      tail = e;
      rest = rw w refl;
      distinct = ground arith;
      queued = λ a. ground (arith, p a);
    };
    alarm = refl;
  },
)

pub Reach-Alarmed : {s : System} → Reach s → Alarmed s
Reach-Alarmed {s} (Reach.start h) = start-Alarmed s h
Reach-Alarmed (Reach.later r h) = Step-Alarmed h (Reach-Alarmed r)

Alarmed-waiting :
    (s : System)
    → Alarmed s
    → s.place ≡ Place.waiting
    → (s.tq.ta_next anchor ≡ null) ⊎ (s.event ≡ true)
Alarmed-waiting s ([], ys, a) w = inl a.queue.chain
Alarmed-waiting s (x ∷ xs, ys, a) w = let h = rw w at a.alarm in inr (ground arith)

-- No wake-up is lost: in every state that enqueues and steps of the worker reach, in any order, the
-- worker waits in its receive only while the queue is empty or the event is pending.
pub no_lost_wakeup :
    (s : System)
    → Reach s
    → s.place ≡ Place.waiting
    → (s.tq.ta_next anchor ≡ null) ⊎ (s.event ≡ true)
no_lost_wakeup s r w = Alarmed-waiting s (Reach-Alarmed r) w
