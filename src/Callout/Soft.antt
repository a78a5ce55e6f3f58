-- ===== src/Callout/Soft.antt =====
-- softclock where the timer functions do not touch the facility: what one round does to a slot.
use mathlib.Core.Path.{fun_ext}
use mathlib.Core.List.{append_assoc, append-nil}
use rtems_libbsdport.Prelude.{
  ℕ, zero, suc, ◌-◌, ◌<◌, ◌≡◌, refl, sym, subst, ap, ◌∙◌, true, false, List, [], ◌∷◌, ◌++◌, arith,
  ◌==◌, if◌then◌else◌, Bool-cases, inl, inr, ==→eq, eq→==,
}
use rtems_libbsdport.Prelude.Lists.{has, length, IsDistinct, IsDistinct-right, has-append}
use rtems_libbsdport.Prelude.Memory.{null, update}
use rtems_libbsdport.Prelude.Words.{clear_bit}
use rtems_libbsdport.Callout.{
  Co, Loc, slot, next_of, ok, Env, Effect, called, expire, fire, act_all, set_flags, count_down,
  slot_loop, pending_bit,
}
use rtems_libbsdport.Callout.Links.{Linked, Linked-after}
use rtems_libbsdport.Callout.Wheel.{
  IsWheel, removed, removed-SameTimers, deq-removed, removed-IsWheel,
}

-- No timer function touches the facility.
abbrev pub quiet : Env
quiet fn arg s = []

-- The callouts of a slot that stay: those with rounds left.
abbrev pub live : (c_time : ℕ → ℕ) → List ℕ → List ℕ
live time [] = []
live time (x ∷ xs) = if time x == 0 then live time xs else x ∷ live time xs

-- The call that an expired callout makes.
abbrev pub fired_one : (fn arg : ℕ) → List Effect
fired_one fn arg = if fn == null then [] else called fn arg ∷ []

-- The calls that a slot makes: one for each callout without rounds left, in order.
abbrev pub fired : (c_func c_arg c_time : ℕ → ℕ) → List ℕ → List Effect
fired fn arg time [] = []
fired fn arg time (x ∷ xs) =
    if time x == 0 then fired_one (fn x) (arg x) ++ fired fn arg time xs else fired fn arg time xs

-- `t` is `s` after the inner loop of softclock over the callouts `xs`, which end slot `i`.
pub record IsSwept (s : Co) (b : ℕ → List ℕ) (i : ℕ) (ks xs : List ℕ) (t : Co) : Type 0 where
  pub wheel : IsWheel t (update b i (ks ++ live s.c_time xs))
  pub time : (a : ℕ) → t.c_time a ≡ (if has a xs then s.c_time a - 1 else s.c_time a)
  pub func : t.c_func ≡ s.c_func
  pub arg : t.c_arg ≡ s.c_arg
  pub hard : t.hard_ticks ≡ s.hard_ticks
  pub soft : t.soft_ticks ≡ s.soft_ticks
  pub effects : t.effects ≡ s.effects ++ fired s.c_func s.c_arg s.c_time xs

abbrev pub head_of : List ℕ → ℕ
head_of [] = null
head_of (x ∷ xs) = x

pub Linked-head_of :
    (next : ℕ → ℕ) (pprev : ℕ → Loc) (h : ℕ) (l : Loc) (xs : List ℕ)
    → Linked next pprev l h xs
    → h ≡ head_of xs
Linked-head_of next pprev h l [] d = d
Linked-head_of next pprev h l (x ∷ xs) d = d.0

live-update :
    (time : ℕ → ℕ) (a v : ℕ) (xs : List ℕ)
    → has a xs ≡ false
    → live (update time a v) xs ≡ live time xs
live-update time a v [] h = refl
live-update time a v (x ∷ xs) h = ground (arith, live-update time a v xs)

fired-update :
    (fn arg time : ℕ → ℕ) (a v : ℕ) (xs : List ℕ)
    → has a xs ≡ false
    → fired fn arg (update time a v) xs ≡ fired fn arg time xs
fired-update fn arg time a v [] h = refl
fired-update fn arg time a v (x ∷ xs) h = ground (arith, fired-update fn arg time a v xs)

update-update : (b : ℕ → List ℕ) (i : ℕ) (v w : List ℕ) → update (update b i v) i w ≡ update b i w
update-update b i v w = fun_ext (λ j. ground arith)

update-same : (b : ℕ → List ℕ) (i : ℕ) (v : List ℕ) → b i ≡ v → update b i v ≡ b
update-same b i v e =
    fun_ext λ j. elim (Bool-cases (j == i)) [ inl h ↦ rw (h, ==→eq _ _ h) (sym e) | inr h ↦ rw h ]

fire-quiet :
    (c : ℕ) (s : Co)
    → fire quiet c s ≡ ok (record s { effects = s.effects ++ fired_one (s.c_func c) (s.c_arg c) })
unfolding fire act_all
fire-quiet c s = elim (Bool-cases (s.c_func c == null)) [
  | inl h ↦ rw h (rw append-nil)
  | inr h ↦ rw h
]

-- The state after an expired callout, which stands behind `ks` in slot `i`.
expired : Co → (i : ℕ) (ks : List ℕ) (x : ℕ) → Co
expired s i ks x = record (removed (set_flags x (clear_bit (s.c_flags x) pending_bit) s) i ks x) {
  effects = s.effects ++ fired_one (s.c_func x) (s.c_arg x);
}

module _ (s : Co) (b : ℕ → List ℕ) (w : IsWheel s b) (i x : ℕ) (ks xs : List ℕ)
    (e : b i ≡ ks ++ (x ∷ xs)) where
  s₁ : Co
  unfolding set_flags
  s₁ = set_flags x (clear_bit (s.c_flags x) pending_bit) s

  w₁ : IsWheel s₁ b
  unfolding s₁
  w₁ = record { lists = w.lists; distinct = w.distinct; apart = w.apart; idle = w.idle }

  expire-expired : expire quiet x s ≡ ok (expired s i ks x)
  unfolding expire expired s₁ set_flags
  expire-expired =
      let same = removed-SameTimers s₁ i ks x in
      let r = removed s₁ i ks x in
      rw (deq-removed s₁ b w₁ i x ks xs e, fire-quiet)
        (λ k.
          ok (record r { effects = same.effects k ++ fired_one (same.func k x) (same.arg k x) }))

  expired-IsWheel : IsWheel (expired s i ks x) (update b i (ks ++ xs))
  unfolding expired s₁ set_flags
  expired-IsWheel =
      let v = removed-IsWheel s₁ b w₁ i x ks xs e in
      record { lists = v.lists; distinct = v.distinct; apart = v.apart; idle = v.idle }

  expired-SameTimers :
      ((expired s i ks x).c_time ≡ s.c_time)
      × ((expired s i ks x).c_func ≡ s.c_func)
      × ((expired s i ks x).c_arg ≡ s.c_arg)
      × ((expired s i ks x).hard_ticks ≡ s.hard_ticks)
      × ((expired s i ks x).soft_ticks ≡ s.soft_ticks)
  unfolding expired set_flags
  expired-SameTimers =
      let same = removed-SameTimers (set_flags x (clear_bit (s.c_flags x) pending_bit) s) i ks x in
      (same.time, same.func, same.arg, same.hard, same.soft)

-- One callout more at the front of what has been swept.
expired-IsSwept :
    (s : Co) (b : ℕ → List ℕ) (w : IsWheel s b) (i x : ℕ) (ks xs : List ℕ)
    (e : b i ≡ ks ++ (x ∷ xs)) (t : Co)
    → (s.c_time x == 0) ≡ true
    → IsSwept (expired s i ks x) (update b i (ks ++ xs)) i ks xs t
    → IsSwept s b i ks (x ∷ xs) t
unfolding expired
expired-IsSwept s b w i x ks xs e t z sw =
    let (time, func, arg, hard, soft) = expired-SameTimers s b w i x ks xs e in
    record {
      wheel = rw z (
          subst (λ tm. IsWheel t (update b i (ks ++ live tm xs))) time
            (subst (IsWheel t) (update-update b i (ks ++ xs) _) sw.wheel));
      time = λ a. ground (arith, sw.time a, ap (λ f. f a) time);
      func = sw.func ∙ func;
      arg = sw.arg ∙ arg;
      hard = sw.hard ∙ hard;
      soft = sw.soft ∙ soft;
      effects = rw z (
          sw.effects
          ∙ (λ k.
              (s.effects ++ fired_one (s.c_func x) (s.c_arg x))
              ++ fired (func k) (arg k) (time k) xs)
          ∙ append_assoc s.effects (fired_one (s.c_func x) (s.c_arg x)) _);
    }

count_down-IsSwept :
    (s : Co) (b : ℕ → List ℕ) (w : IsWheel s b) (i x : ℕ) (ks xs : List ℕ)
    (e : b i ≡ ks ++ (x ∷ xs)) (t : Co)
    → (s.c_time x == 0) ≡ false
    → IsSwept (count_down x s) b i (ks ++ (x ∷ [])) xs t
    → IsSwept s b i ks (x ∷ xs) t
unfolding count_down
count_down-IsSwept s b w i x ks xs e t z sw =
    let absent : has x xs ≡ false =
      (IsDistinct-right ks (x ∷ xs) (subst (λ y. IsDistinct (null ∷ y)) e (w.distinct i)).1).0 in
    record {
      wheel = rw z (
          subst (λ ys. IsWheel t (update b i ys))
            (ap (λ ys. (ks ++ (x ∷ [])) ++ ys) (live-update s.c_time x (s.c_time x - 1) xs absent)
              ∙ append_assoc ks (x ∷ []) _)
            sw.wheel);
      time = λ a. ground (arith, sw.time a);
      func = sw.func;
      arg = sw.arg;
      hard = sw.hard;
      soft = sw.soft;
      effects = rw z (
          sw.effects
          ∙ ap (◌++◌ s.effects)
              (fired-update s.c_func s.c_arg s.c_time x (s.c_time x - 1) xs absent));
    }

update_self : (f : ℕ → List ℕ) (a : ℕ) (v : List ℕ) → update f a v a ≡ v
update_self f a v = rw (eq→== a a refl)

count_down-IsWheel : (s : Co) (b : ℕ → List ℕ) (x : ℕ) → IsWheel s b → IsWheel (count_down x s) b
unfolding count_down
count_down-IsWheel s b x w = record {
  lists = w.lists;
  distinct = w.distinct;
  apart = w.apart;
  idle = w.idle;
}

-- With fuel for the slot and functions that leave the wheel alone, the inner loop of softclock ends
-- and sweeps the slot from the given callout on: it fires the callouts without rounds left, in the
-- order of the list, takes them off the wheel, and counts the others down.
pub slot_loop-IsSwept :
    (fuel c : ℕ) (s : Co) (b : ℕ → List ℕ) (i : ℕ) (ks xs : List ℕ)
    → IsWheel s b
    → b i ≡ ks ++ xs
    → c ≡ head_of xs
    → length xs < fuel
    → (t : Co) × (slot_loop quiet fuel c s ≡ ok t) × IsSwept s b i ks xs t
unfolding slot_loop
slot_loop-IsSwept zero c s b i ks xs w e h f = absurd (omega arith)
slot_loop-IsSwept (suc fuel) c s b i ks [] w e h f = (
  s,
  rw h,
  record {
    wheel = rw (update-same b i (ks ++ []) e) w;
    time = λ a. refl;
    func = refl;
    arg = refl;
    hard = refl;
    soft = refl;
    effects = sym (append-nil s.effects);
  },
)
slot_loop-IsSwept (suc fuel) c s b i ks (x ∷ xs) w e h f =
    rw (h, nonnull)
      (elim (Bool-cases (s.c_time x == 0)) [
        | inl z ↦
            let (t, run, sw) =
              slot_loop-IsSwept fuel (s.c_next x) (expired s i ks x) (update b i (ks ++ xs)) i ks xs
                (expired-IsWheel s b w i x ks xs e) (update_self b i (ks ++ xs)) next_head
                (omega arith) in
            (
              t,
              rw (z, expire-expired s b w i x ks xs e) run,
              expired-IsSwept s b w i x ks xs e t z sw,
            )
        | inr z ↦
            let (t, run, sw) =
              slot_loop-IsSwept fuel (s.c_next x) (count_down x s) b i (ks ++ (x ∷ [])) xs
                (count_down-IsWheel s b x w) (e ∙ sym (append_assoc ks (x ∷ []) xs)) next_head
                (omega arith) in
            (t, rw z run, count_down-IsSwept s b w i x ks xs e t z sw)
      ])
  where
    nonnull : (x == null) ≡ false
    nonnull =
        ground
          (arith, subst (λ y. IsDistinct (null ∷ y)) e (w.distinct i), has-append null ks (x ∷ xs))

    next_head : s.c_next x ≡ head_of xs
    next_head = Linked-head_of s.c_next s.c_pprev (s.c_next x) (next_of x) xs (
        Linked-after s.c_next s.c_pprev x (s.c_wheel i) (slot i) ks xs
          (subst (λ y. Linked s.c_next s.c_pprev (slot i) (s.c_wheel i) y) e (w.lists i)))
