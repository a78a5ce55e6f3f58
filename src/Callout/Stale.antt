-- ===== src/Callout/Stale.antt =====
-- softclock reads the successor of a callout before it calls the callout's function. The function
-- must not stop that successor.
use rtems_libbsdport.Prelude.{
  ℕ, suc, ◌+◌, ◌%◌, ◌≡◌, ap, ◌∙◌, subst, ◌≢◌, Bool, true, false, List, [], ◌∷◌, ◌++◌, arith, ◌==◌,
  inr, ==-false, eq→==,
}
use rtems_libbsdport.Prelude.Lists.{IsDistinct}
use rtems_libbsdport.Prelude.Memory.{null, update}
use rtems_libbsdport.Callout.{
  Co, Run, ok, assert_failed, ◌>>=◌, Env, called, stop, slot, slot_loop, soft_round, expire, fire,
  act, act_all, callout_stop, c_deq, deq_at, set_flags, time_mod, nowhere, pending_bit,
}
use rtems_libbsdport.Prelude.Words.{clear_bit}
use rtems_libbsdport.Callout.Wheel.{IsWheel, removed, deq-removed, removed-IsWheel}
use rtems_libbsdport.Callout.Links.{Linked}
use rtems_libbsdport.Callout.Reset.{stop-IsStopped, IsStopped, all_without-Absent}
use rtems_libbsdport.Callout.Timing.{next_slot}

-- The state in which the function of `x` is called: `x`, first in slot `i`, has left the wheel.
unfoldable called_at : Co → (i x : ℕ) → Co
unfolding removed set_flags
called_at s i x =
    let r = removed (set_flags x (clear_bit (s.c_flags x) pending_bit) s) i [] x in
    record r { effects = r.effects ++ (called (s.c_func x) (s.c_arg x) ∷ []) }

-- A function that stops `y`, called for an expired `x`.
fire-stop :
    (env : Env) (x y : ℕ) (r t : Co)
    → r.c_func x ≢ null
    → ((t : Co) → env (r.c_func x) (r.c_arg x) t ≡ stop y ∷ [])
    → callout_stop y (record r { effects = r.effects ++ (called (r.c_func x) (r.c_arg x) ∷ []) })
      ≡ ok (true, t)
    → fire env x r ≡ ok t
unfolding fire act_all act
fire-stop env x y r t f act_y run =
    rw (==-false (r.c_func x) null f, act_y _)
      (ap (λ (m : Run (Bool × Co)). (m >>= λ q. ok q.1) >>= act_all []) run)

module _ (s : Co) (b : ℕ → List ℕ) (w : IsWheel s b) (i x y : ℕ) (ys : List ℕ)
    (e : b i ≡ x ∷ y ∷ ys) where
  abbrev b₁ : ℕ → List ℕ
  b₁ = update b i (y ∷ ys)

  s₁ : Co
  unfolding set_flags
  s₁ = set_flags x (clear_bit (s.c_flags x) pending_bit) s

  w₁ : IsWheel s₁ b
  unfolding s₁
  w₁ = record { lists = w.lists; distinct = w.distinct; apart = w.apart; idle = w.idle }

  called_at-IsWheel : IsWheel (called_at s i x) b₁
  unfolding called_at s₁
  called_at-IsWheel =
      let v = removed-IsWheel s₁ b w₁ i x [] (y ∷ ys) e in
      record { lists = v.lists; distinct = v.distinct; apart = v.apart; idle = v.idle }

  here : b₁ i ≡ y ∷ ys
  here = ground arith

  -- The function of `x` stops `y`.
  stopped :
      (t : Co) × (callout_stop y (called_at s i x) ≡ ok (true, t))
      × IsStopped (called_at s i x) b₁ y true t
  stopped = stop-IsStopped (called_at s i x) b₁ y called_at-IsWheel (inr (i, [], ys, here))

  off_wheel : stopped.0.c_pprev y ≡ nowhere
  off_wheel =
      (stopped.2.wheel.idle y (all_without-Absent (called_at s i x) b₁ y called_at-IsWheel)).0

  time_kept : stopped.0.c_time ≡ s.c_time
  unfolding called_at removed set_flags
  time_kept = stopped.2.time

  expire-stopped :
      (env : Env)
      → s.c_func x ≢ null
      → ((t : Co) → env (s.c_func x) (s.c_arg x) t ≡ stop y ∷ [])
      → expire env x s ≡ ok stopped.0
  unfolding expire called_at s₁ set_flags removed
  expire-stopped env f act_y =
      ap (λ m. m >>= fire env x) (deq-removed s₁ b w₁ i x [] (y ∷ ys) e)
      ∙ fire-stop env x y (removed s₁ i [] x) stopped.0 f act_y stopped.1

slot_loop-expired :
    (env : Env) (fuel c : ℕ) (s : Co)
    → (c == null) ≡ false
    → (s.c_time c == 0) ≡ true
    → slot_loop env (suc fuel) c s ≡ (expire env c s >>= slot_loop env fuel (s.c_next c))
unfolding slot_loop
slot_loop-expired env fuel c s n z = rw (n, z)

-- An expired callout that is off the wheel.
expire-nowhere :
    (env : Env) (y : ℕ) (t : Co) → t.c_pprev y ≡ nowhere → expire env y t ≡ assert_failed
unfolding expire c_deq set_flags
expire-nowhere env y t e = rw (e, deq_at)

module _ (env : Env) (fuel : ℕ) (s : Co) (b : ℕ → List ℕ) (w : IsWheel s b) (x y : ℕ)
    (ys : List ℕ) where
  -- Two callouts stand first in the slot of the next round, both without rounds left, and the
  -- function of the first stops the second, which is still on the wheel. Then softclock goes on with
  -- the second although it is off the wheel, and runs into the assertion of c_deq.
  pub stop_successor_fails :
      b (next_slot s) ≡ x ∷ y ∷ ys
      → s.c_time x ≡ 0
      → s.c_time y ≡ 0
      → s.c_func x ≢ null
      → ((t : Co) → env (s.c_func x) (s.c_arg x) t ≡ stop y ∷ [])
      → soft_round env (suc (suc fuel)) s ≡ assert_failed
  unfolding soft_round
  stop_successor_fails e zx zy f act_y =
      let k = next_slot s in
      let (first, _, (after, _, _)) =
        subst (λ z. Linked s.c_next s.c_pprev (slot k) (s.c_wheel k) z) e (w.lists k) in
      let d = subst (λ z. IsDistinct (null ∷ z)) e (w.distinct k) in
      let (t, run, st) = stopped s b w k x y ys e in
      let gone : (t.c_time y == 0) ≡ true = rw (time_kept s b w k x y ys e) (eq→== _ _ zy) in
      ap {B = Run Co}
        (λ (m : Run Co).
          ◌>>=◌ {B = Co} m λ u. ok (record u { soft_ticks = (s.soft_ticks + 1) % time_mod }))
        (ap (λ c. slot_loop env (suc (suc fuel)) c s) first
          ∙ slot_loop-expired env (suc fuel) x s (ground (arith, d.0)) (eq→== _ _ zx)
          ∙ ap (λ m. m >>= slot_loop env (suc fuel) (s.c_next x))
              (expire-stopped s b w k x y ys e env f act_y)
          ∙ ap (λ c. slot_loop env (suc fuel) c t) after
          ∙ slot_loop-expired env fuel y t (ground (arith, d.0)) gone
          ∙ ap (λ m. m >>= slot_loop env fuel (t.c_next y))
              (expire-nowhere env y t (off_wheel s b w k x y ys e)))
