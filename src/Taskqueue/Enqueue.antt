-- ===== src/Taskqueue/Enqueue.antt =====
-- taskqueue_enqueue: the list and the counts after it, and when the worker is woken.
use rtems_libbsdport.Prelude.{
  ℕ, ◌+◌, ◌≡◌, sym, ◌≢◌, Bool, true, false, ◌&&◌, List, [], ◌∷◌, ◌++◌, arith, ◌==◌, if◌then◌else◌,
  Bool-cases, inl, inr,
}
use rtems_libbsdport.Prelude.Lists.{
  has, last_or, IsDistinct-insert, IsDistinct-left, IsDistinct-apart, has-append, last_or-has,
  last_or-append, has-ne,
}
use rtems_libbsdport.Prelude.Memory.{null, update}
use rtems_libbsdport.Taskqueue.{
  Tq, event_sent, anchor, taskqueue_enqueue, taskqueue_thread_enqueue, hook, count_up, enqueue_all,
}
use rtems_libbsdport.Taskqueue.Chain.{IsQueue, Chain-snoc, Seg-update}

-- An address that can be a caller's `struct task`.
abbrev pub IsTask : ℕ → Type 0
IsTask ta = (ta ≢ null) × (ta ≢ anchor)

-- The order of the queue after `ta` is enqueued.
abbrev pub arrive : ℕ → (xs ys : List ℕ) → List ℕ
arrive ta xs ys = if has ta (xs ++ ys) then xs else xs ++ (ta ∷ [])

-- The wake-up touches no field of the queue.
pub thread_enqueue-IsQueue :
    (s : Tq) (xs ys : List ℕ) (p : ℕ)
    → IsQueue s xs ys p
    → IsQueue (taskqueue_thread_enqueue s) xs ys p
unfolding taskqueue_thread_enqueue
thread_enqueue-IsQueue s xs ys p q =
    elim (Bool-cases ((s.ta_next anchor == s.tail) && (s.ta_pending s.tail == 1))) [
      | inl e ↦ rw e (record {
        chain = q.chain;
        tail = q.tail;
        rest = q.rest;
        distinct = q.distinct;
        queued = q.queued;
      })
      | inr e ↦ rw e q
    ]

abbrev pub is_empty {ℓ} : {A : Type ℓ} → List A → Bool
is_empty [] = true
is_empty (x ∷ xs) = false

module _ (s : Tq) (xs ys : List ℕ) (p : ℕ) (q : IsQueue s xs ys p) (ta : ℕ) where
  hook-IsQueue :
      IsTask ta
      → has ta (xs ++ ys) ≡ false
      → IsQueue (hook (count_up s ta) ta) (xs ++ (ta ∷ [])) ys p
  unfolding hook count_up
  hook-IsQueue t h = record {
    chain = rw q.tail (
        Chain-snoc s.ta_next ta anchor xs q.chain (ground (arith, has-append ta xs ys, t.1))
          (IsDistinct-left (anchor ∷ xs) ys q.distinct.1));
    tail = sym (last_or-append anchor ta xs);
    rest = rw q.tail (
        Seg-update _ (last_or anchor xs) ta p ys
          (Seg-update s.ta_next ta null p ys q.rest (ground (arith, has-append ta xs ys)))
          (IsDistinct-apart (last_or anchor xs) (anchor ∷ xs) ys q.distinct.1
            (last_or-has anchor xs)));
    distinct = IsDistinct-insert ta (null ∷ anchor ∷ xs) ys q.distinct (ground (arith, t.0, t.1));
    queued = λ a. ground (
      arith,
      q.queued a,
      has-append a (xs ++ (ta ∷ [])) ys,
      has-append a xs (ta ∷ []),
      has-append a xs ys,
    );
  }

  count_up-IsQueue : has ta (xs ++ ys) ≡ true → IsQueue (count_up s ta) xs ys p
  unfolding count_up
  count_up-IsQueue h = record {
    chain = q.chain;
    tail = q.tail;
    rest = q.rest;
    distinct = q.distinct;
    queued = λ a. ground (arith, q.queued a);
  }

  -- taskqueue_enqueue keeps the queue well formed, beside a detached list that the worker may have:
  -- a task on neither list goes to the end of the queue, one on either keeps its place.
  pub enqueue-IsQueue : IsTask ta → IsQueue (taskqueue_enqueue s ta) (arrive ta xs ys) ys p
  unfolding taskqueue_enqueue
  enqueue-IsQueue t = elim (Bool-cases (has ta (xs ++ ys))) [
    | inl h ↦ rw (h, q.queued ta, h) (thread_enqueue-IsQueue _ xs ys p (count_up-IsQueue h))
    | inr h ↦ rw (h, q.queued ta, h) (thread_enqueue-IsQueue _ _ ys p (hook-IsQueue t h))
  ]

-- A task that is not on the detached list wakes the worker, by one event, if and only if the queue
-- was empty.
pub enqueue-wakes :
    (s : Tq) (xs ys : List ℕ) (p ta : ℕ)
    → IsQueue s xs ys p
    → IsTask ta
    → has ta ys ≡ false
    → (taskqueue_enqueue s ta).effects
      ≡ (if is_empty xs then s.effects ++ (event_sent s.tid ∷ []) else s.effects)
unfolding taskqueue_enqueue taskqueue_thread_enqueue hook count_up
enqueue-wakes s [] ys p ta q t h = ground (arith, q.queued ta, q.tail, t.1)
enqueue-wakes s (x ∷ []) ys p ta q t h =
    ground (arith, q.queued ta, q.tail, q.chain, t.1, q.distinct.1.0)
enqueue-wakes s (x ∷ y ∷ xs) ys p ta q t h = ground (
  arith,
  q.queued ta,
  q.tail,
  q.chain,
  t.1,
  q.distinct.1.0,
  last_or-has y xs,
  has-append x (y ∷ xs) ys,
  has-append anchor (x ∷ y ∷ xs) ys,
  has-append ta (x ∷ y ∷ xs) ys,
  has-ne (last_or y xs) x (y ∷ xs),
  has-ne (last_or y xs) anchor (y ∷ xs),
)

-- Any number of enqueues, in order.
abbrev pub arrive_all : List ℕ → (xs ys : List ℕ) → List ℕ
arrive_all [] xs ys = xs
arrive_all (ta ∷ tas) xs ys = arrive_all tas (arrive ta xs ys) ys

abbrev pub AllTasks : List ℕ → Type 0
AllTasks [] = Unit {0}
AllTasks (ta ∷ tas) = IsTask ta × AllTasks tas

pub enqueue_all-IsQueue :
    (s : Tq) (tas xs ys : List ℕ) (p : ℕ)
    → IsQueue s xs ys p
    → AllTasks tas
    → IsQueue (enqueue_all s tas) (arrive_all tas xs ys) ys p
unfolding enqueue_all
enqueue_all-IsQueue s [] xs ys p q t = q
enqueue_all-IsQueue s (ta ∷ tas) xs ys p q t =
    enqueue_all-IsQueue (taskqueue_enqueue s ta) tas (arrive ta xs ys) ys p
      (enqueue-IsQueue s xs ys p q ta t.0) t.1

-- What an enqueue leaves alone, and the count.
pub enqueue-fields :
    (s : Tq) (ta : ℕ)
    → ((taskqueue_enqueue s ta).ta_fn ≡ s.ta_fn)
      × ((taskqueue_enqueue s ta).ta_fn_arg ≡ s.ta_fn_arg)
      × ((taskqueue_enqueue s ta).ta_pending ≡ update s.ta_pending ta (s.ta_pending ta + 1))
unfolding taskqueue_enqueue taskqueue_thread_enqueue hook count_up
enqueue-fields s ta = ground arith
