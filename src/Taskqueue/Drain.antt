-- ===== src/Taskqueue/Drain.antt =====
-- taskqueue_drain: takes one task off the queue and runs what it has pending.
use rtems_libbsdport.Prelude.{
  ℕ, zero, suc, ◌<◌, ◌≡◌, refl, subst, ap, ◌∙◌, true, false, some, List, [], ◌∷◌, ◌++◌, arith, ◌==◌,
  if◌then◌else◌, Bool-cases, inl, inr, ==→eq,
}
use rtems_libbsdport.Prelude.Lists.{
  has, without, length, last_or, IsDistinct, IsDistinct-left, IsDistinct-apart, has-append,
  last_or-has, has-ne,
}
use rtems_libbsdport.Prelude.Memory.{null, update}
use rtems_libbsdport.Taskqueue.{Tq, Env, anchor, call_times, unhook, drain_loop, taskqueue_drain}
use rtems_libbsdport.Taskqueue.Chain.{Chain, IsQueue, Chain-update, Seg-update}
use rtems_libbsdport.Taskqueue.Work.{quiet, countdown, call_times-quiet}

-- The predecessor of `t` on the list behind `p`.
abbrev pred_of : (t p : ℕ) → List ℕ → ℕ
pred_of t p [] = p
pred_of t p (x ∷ xs) = if x == t then p else pred_of t x xs

drain_loop-found :
    (fuel p t : ℕ) (s : Tq) (xs : List ℕ)
    → Chain s.ta_next p xs
    → has null xs ≡ false
    → has t xs ≡ true
    → length xs < fuel
    → drain_loop quiet fuel p t s
      ≡ some (
          call_times quiet
            (s.ta_fn t)
            (s.ta_fn_arg t)
            (s.ta_pending t)
            (unhook s (pred_of t p xs) t))
unfolding drain_loop
drain_loop-found zero p t s xs c n h f = absurd (omega arith)
drain_loop-found (suc fuel) p t s [] c n h f = cc
drain_loop-found (suc fuel) p t s (x ∷ xs) c n h f = ground (arith, drain_loop-found fuel x t s xs)

drain_loop-absent :
    (env : Env) (fuel p t : ℕ) (s : Tq) (xs : List ℕ)
    → Chain s.ta_next p xs
    → has null xs ≡ false
    → has t xs ≡ false
    → length xs < fuel
    → drain_loop env fuel p t s ≡ some s
unfolding drain_loop
drain_loop-absent env zero p t s xs c n h f = absurd (omega arith)
drain_loop-absent env (suc fuel) p t s [] c n h f = ground arith
drain_loop-absent env (suc fuel) p t s (x ∷ xs) c n h f =
    ground (arith, drain_loop-absent env fuel x t s xs)

pred_of-has : (t p : ℕ) (xs : List ℕ) → has (pred_of t p xs) (p ∷ xs) ≡ true
pred_of-has t p [] = ground arith
pred_of-has t p (x ∷ xs) = ground (arith, pred_of-has t x xs)

unhook_head :
    (next : ℕ → ℕ) (t p : ℕ) (xs : List ℕ)
    → Chain next t xs
    → IsDistinct (p ∷ t ∷ xs)
    → Chain (update (update next p (next t)) t null) p xs
unhook_head next t p [] c d = ground arith
unhook_head next t p (z ∷ zs) c d = (
  ground (arith, c.0),
  Chain-update _ t null z zs (Chain-update next p (next t) z zs c.1 (ground arith)) d.1.0,
)

-- The chain with the node `t` taken out.
unhook-Chain :
    (next : ℕ → ℕ) (t p : ℕ) (xs : List ℕ)
    → Chain next p xs
    → IsDistinct (p ∷ xs)
    → has t xs ≡ true
    → Chain (update (update next (pred_of t p xs) (next t)) t null) p (without t xs)
unhook-Chain next t p [] c d h = cc
unhook-Chain next t p (x ∷ xs) c d h = elim (Bool-cases (x == t)) [
  | inl e ↦ rw e (
      unhook_head next t p xs (subst (λ z. Chain next z xs) (==→eq x t e) c.1)
        (subst (λ z. IsDistinct (p ∷ z ∷ xs)) (==→eq x t e) d))
  | inr e ↦ rw e (
    ground (arith, pred_of-has t x xs, has-ne (pred_of t x xs) p (x ∷ xs)),
    unhook-Chain next t x xs c.1 d.1 (ground arith),
  )
]

last_or-without :
    (t p : ℕ) (xs : List ℕ)
    → IsDistinct (p ∷ xs)
    → has t xs ≡ true
    → (if last_or p xs == t then pred_of t p xs else last_or p xs) ≡ last_or p (without t xs)
last_or-without t p [] d h = cc
last_or-without t p (x ∷ []) d h = ground arith
last_or-without t p (x ∷ y ∷ xs) d h =
    ground
      (arith, last_or-without t x (y ∷ xs) d.1, last_or-has y xs, has-ne (last_or y xs) x (y ∷ xs))

has-without :
    (a t : ℕ) (xs ys : List ℕ)
    → IsDistinct (xs ++ ys)
    → has t xs ≡ true
    → has a (without t xs ++ ys) ≡ (if a == t then false else has a (xs ++ ys))
has-without a t [] ys d h = cc
has-without a t (x ∷ xs) ys d h = ground (arith, has-without a t xs ys d.1, has-append t xs ys)

IsDistinct-without :
    (t : ℕ) (xs ys : List ℕ)
    → IsDistinct (xs ++ ys)
    → has t xs ≡ true
    → IsDistinct (without t xs ++ ys)
IsDistinct-without t [] ys d h = cc
IsDistinct-without t (x ∷ xs) ys d h = elim (Bool-cases (x == t)) [
  | inl e ↦ rw e d.1
  | inr e ↦
      rw e
        (ground (arith, has-without x t xs ys d.1), IsDistinct-without t xs ys d.1 (ground arith))
]

unhook-IsQueue :
    (s : Tq) (xs ys : List ℕ) (p t : ℕ)
    → IsQueue s xs ys p
    → has t xs ≡ true
    → IsQueue (unhook s (pred_of t anchor xs) t) (without t xs) ys p
unfolding unhook
unhook-IsQueue s xs ys p t q h = record {
  chain =
      unhook-Chain s.ta_next t anchor xs q.chain (IsDistinct-left (anchor ∷ xs) ys q.distinct.1) h;
  tail = rw q.tail (last_or-without t anchor xs (IsDistinct-left (anchor ∷ xs) ys q.distinct.1) h);
  rest =
      Seg-update _ t null p ys
        (Seg-update s.ta_next (pred_of t anchor xs) (s.ta_next t) p ys q.rest (
          IsDistinct-apart (pred_of t anchor xs) (anchor ∷ xs) ys q.distinct.1
            (pred_of-has t anchor xs)))
        (IsDistinct-apart t xs ys q.distinct.1.1 h);
  distinct = (
    ground (arith, has-without null t xs ys q.distinct.1.1 h, q.distinct.0),
    (
      ground (arith, has-without anchor t xs ys q.distinct.1.1 h, q.distinct.1.0),
      IsDistinct-without t xs ys q.distinct.1.1 h,
    ),
  );
  queued = λ a. ground (arith, q.queued a, has-without a t xs ys q.distinct.1.1 h);
}

-- With no interrupt and functions that enqueue nothing, taskqueue_drain of a task on the queue
-- takes it off, keeps the order of the others and the tail pointer right, and calls the task's
-- function as often as it is pending.
pub drain-removes :
    (fuel : ℕ) (s : Tq) (xs ys : List ℕ) (p t : ℕ)
    → IsQueue s xs ys p
    → has t xs ≡ true
    → length xs < fuel
    → (s' : Tq) × (taskqueue_drain quiet fuel t s ≡ some s')
      × IsQueue s' (without t xs) ys p
      × (s'.effects ≡ s.effects ++ countdown (s.ta_fn t) (s.ta_fn_arg t) (s.ta_pending t))
unfolding taskqueue_drain unhook
drain-removes fuel s xs ys p t q h f =
    let u = unhook-IsQueue s xs ys p t q h in
    let s₁ = unhook s (pred_of t anchor xs) t in
    let out = countdown (s.ta_fn t) (s.ta_fn_arg t) (s.ta_pending t) in
    (
      record s₁ { effects = s.effects ++ out },
      drain_loop-found fuel anchor t s xs q.chain
            (ground (arith, q.distinct.0, has-append null xs ys)) h f
          ∙ ap some (call_times-quiet (s.ta_fn t) (s.ta_fn_arg t) (s.ta_pending t) s₁),
      record {
        chain = u.chain;
        tail = u.tail;
        rest = u.rest;
        distinct = u.distinct;
        queued = u.queued;
      },
      refl,
    )

-- A task that is not on the queue's own list is left alone, also when the worker has it on its
-- detached list.
pub drain-absent :
    (env : Env) (fuel : ℕ) (s : Tq) (xs ys : List ℕ) (p t : ℕ)
    → IsQueue s xs ys p
    → has t xs ≡ false
    → length xs < fuel
    → taskqueue_drain env fuel t s ≡ some s
unfolding taskqueue_drain
drain-absent env fuel s xs ys p t q h f =
    drain_loop-absent env fuel anchor t s xs q.chain
      (ground (arith, q.distinct.0, has-append null xs ys)) h f
