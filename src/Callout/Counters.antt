-- ===== src/Callout/Counters.antt =====
-- softclock's work on one callout leaves the counters of rtems_callout.c alone.
use rtems_libbsdport.Prelude.{
  ℕ, ◌≡◌, refl, ◌∙◌, Bool, ◌&&◌, List, [], ◌∷◌, ◌++◌, ◌==◌, Bool-cases, inl, inr,
}
use rtems_libbsdport.Prelude.Memory.{null}
use rtems_libbsdport.Callout.{
  Co, Run, ok, assert_failed, out_of_fuel, Env, Action, expire, pending_bit, c_deq, c_enq,
  callout_stop, callout_reset, act, act_all, fire, deq_at, unlink, set_flags, arm, ◌>>=◌, Loc,
  nowhere, slot, next_of, stop, reset, is_nowhere, called,
}
use rtems_libbsdport.Prelude.Words.{clear_bit}

-- The counters are those of `s`, if the code gets there.
abbrev pub SameTicks : {A : Type 0} → (A → Co) → Co → Run A → Type 0
SameTicks co s (ok a) = ((co a).hard_ticks ≡ s.hard_ticks) × ((co a).soft_ticks ≡ s.soft_ticks)
SameTicks co s assert_failed = Unit {0}
SameTicks co s out_of_fuel = Unit {0}

bind-SameTicks :
    {A B : Type 0} (a : A → Co) (b : B → Co) (s : Co) (m : Run A) (f : A → Run B)
    → SameTicks a s m
    → ((x : A) → SameTicks b (a x) (f x))
    → SameTicks b s (m >>= f)
bind-SameTicks a b s (ok x) f (h, k) g = go (f x) (g x)
  where
    go : (r : Run _) → SameTicks b (a x) r → SameTicks b s r
    go (ok y) (h', k') = (h' ∙ h, k' ∙ k)
    go assert_failed u = tt
    go out_of_fuel u = tt
bind-SameTicks a b s assert_failed f h g = tt
bind-SameTicks a b s out_of_fuel f h g = tt

unfoldable pub itself : Co → Co
itself s = s

deq_at-SameTicks : (l : Loc) (c : ℕ) (s : Co) → SameTicks itself s (deq_at l c s)
unfolding deq_at unlink itself
deq_at-SameTicks nowhere c s = tt
deq_at-SameTicks (slot i) c s = (refl, refl)
deq_at-SameTicks (next_of a) c s = (refl, refl)

deq-SameTicks : (c : ℕ) (s : Co) → SameTicks itself s (c_deq c s)
unfolding c_deq
deq-SameTicks c s = deq_at-SameTicks (s.c_pprev c) c s

enq-SameTicks : (i c : ℕ) (s : Co) → SameTicks itself s (c_enq i c s)
unfolding c_enq itself
enq-SameTicks i c s = elim (Bool-cases (is_nowhere (s.c_pprev c) && (s.c_next c == null))) [
  | inl e ↦ rw e (refl, refl)
  | inr e ↦ rw e tt
]

second : Bool × Co → Co
second (b, s) = s

stop-SameTicks : (c : ℕ) (s : Co) → SameTicks second s (callout_stop c s)
unfolding callout_stop second itself
stop-SameTicks c s = elim (Bool-cases (is_nowhere (s.c_pprev c))) [
  | inl e ↦ rw e (refl, refl)
  | inr e ↦
      rw e (bind-SameTicks itself second s (c_deq c s) _ (deq-SameTicks c s) (λ t. (refl, refl)))
]

reset-SameTicks :
    (c ticks fn arg : ℕ) (s : Co) → SameTicks second s (callout_reset c ticks fn arg s)
unfolding callout_reset second itself arm
reset-SameTicks c ticks fn arg s =
    bind-SameTicks second second s (callout_stop c s) _ (stop-SameTicks c s) (λ t.
      bind-SameTicks itself second t.1 _ _ (enq-SameTicks _ c (arm c _ fn arg t.1))
        (λ u. (refl, refl)))

act-SameTicks : (a : Action) (s : Co) → SameTicks itself s (act a s)
unfolding act second itself
act-SameTicks (stop c) s =
    bind-SameTicks second itself s (callout_stop c s) _ (stop-SameTicks c s) (λ t. (refl, refl))
act-SameTicks (reset c ticks fn arg) s =
    bind-SameTicks second itself s (callout_reset c ticks fn arg s) _
      (reset-SameTicks c ticks fn arg s) (λ t. (refl, refl))

act_all-SameTicks : (acts : List Action) (s : Co) → SameTicks itself s (act_all acts s)
unfolding act_all itself
act_all-SameTicks [] s = (refl, refl)
act_all-SameTicks (a ∷ rest) s =
    bind-SameTicks itself itself s (act a s) (act_all rest) (act-SameTicks a s)
      (λ t. act_all-SameTicks rest t)

fire-SameTicks : (env : Env) (c : ℕ) (s : Co) → SameTicks itself s (fire env c s)
unfolding fire itself
fire-SameTicks env c s =
    let s' : Co = record s { effects = s.effects ++ (called (s.c_func c) (s.c_arg c) ∷ []) } in
    elim (Bool-cases (s.c_func c == null)) [
      | inl e ↦ rw e (refl, refl)
      | inr e ↦ rw e (act_all-SameTicks (env (s.c_func c) (s.c_arg c) s') s')
    ]

pub expire-SameTicks : (env : Env) (c : ℕ) (s : Co) → SameTicks itself s (expire env c s)
unfolding expire itself set_flags
expire-SameTicks env c s =
    let s' = set_flags c (clear_bit (s.c_flags c) pending_bit) s in
    bind-SameTicks itself itself s (c_deq c s') (fire env c) (deq-SameTicks c s')
      (λ t. fire-SameTicks env c t)
