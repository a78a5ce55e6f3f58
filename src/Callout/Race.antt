-- ===== src/Callout/Race.antt =====
-- softclock and hardclock of rtems_callout.c do not race for soft_ticks.
use rtems_libbsdport.Prelude.{
  ℕ, ◌+◌, ◌%◌, ◌<◌, ◌≡◌, refl, sym, ap, subst, ◌∙◌, ◌≢◌, Bool, true, false, ◌||◌, ◌&&◌, not, ◌==◌,
  [], ◌∷◌, arith, Bool-cases, inl, inr, ◌⊎◌,
}
use rtems_libbsdport.Prelude.Lists.{length-append}
use rtems_libbsdport.Prelude.Memory.{null}
use rtems_libbsdport.Callout.{Co, Env, event_sent, count_down, hardclock, wheel_size, time_mod}
use rtems_libbsdport.Callout.Ticks.{Place, System, Step, Reach, IsStart, is_sent}
use rtems_libbsdport.Callout.Swept.{Swept, Reach-Swept}
use rtems_libbsdport.Callout.Counters.{SameTicks, itself, expire-SameTicks}

-- What the task has read or begun fits the counters.
abbrev Fits : Place → Co → Type 0
Fits Place.waiting s = Unit {0}
Fits Place.looking s = Unit {0}
Fits (Place.read st ht) s =
    (st ≡ ht) ⊎ ((st ≡ s.soft_ticks) × ((s.soft_ticks == s.hard_ticks) ≡ false))
Fits (Place.sweeping st c) s =
    (st ≡ (s.soft_ticks + 1) % time_mod) × ((s.soft_ticks == s.hard_ticks) ≡ false)

-- The task will look at the counters before it waits.
abbrev is_busy : Place → Bool
is_busy Place.waiting = false
is_busy Place.looking = true
is_busy (Place.read st ht) = not (st == ht)
is_busy (Place.sweeping st c) = true

record IsOrdered (s : System) : Type 0 where
  hard : s.co.hard_ticks < time_mod
  soft : s.co.soft_ticks < time_mod
  fits : Fits s.place s.co
  alarm : ((s.co.soft_ticks == s.co.hard_ticks) || (s.event || is_busy s.place)) ≡ true

-- The task is not behind, and the slot of the tick is empty.
abbrev is_skipped : Co → Bool
is_skipped s =
    (s.hard_ticks == s.soft_ticks)
    && (s.c_wheel ((s.hard_ticks + 1) % time_mod % wheel_size) == null)

-- A tick that hardclock handles on the spot, and one that it leaves to the task.
tick_skipped :
    (tid : ℕ) (s : Co)
    → is_skipped s ≡ true
    → ((hardclock tid s).hard_ticks ≡ (s.hard_ticks + 1) % time_mod)
      × ((hardclock tid s).soft_ticks ≡ (s.soft_ticks + 1) % time_mod)
      × (s.hard_ticks ≡ s.soft_ticks)
      × (s.c_wheel ((s.soft_ticks + 1) % time_mod % wheel_size) ≡ null)
unfolding hardclock
tick_skipped tid s e = (rw e refl, rw e refl, ground arith, ground arith)

tick_left :
    (tid : ℕ) (s : Co)
    → is_skipped s ≡ false
    → ((hardclock tid s).hard_ticks ≡ (s.hard_ticks + 1) % time_mod)
      × ((hardclock tid s).soft_ticks ≡ s.soft_ticks)
      × (is_sent tid s ≡ true)
unfolding hardclock
tick_left tid s e =
    (rw e refl, rw e refl, rw e (ground (arith, length-append s.effects (event_sent tid ∷ []))))

skipped-Fits : (p : Place) (s t : Co) → s.hard_ticks ≡ s.soft_ticks → Fits p s → Fits p t
skipped-Fits Place.waiting s t e f = tt
skipped-Fits Place.looking s t e f = tt
skipped-Fits (Place.read st ht) s t e (inl f) = inl f
skipped-Fits (Place.read st ht) s t e (inr (f, g)) = absurd (ground (arith, e))
skipped-Fits (Place.sweeping st c) s t e (f, g) = absurd (ground (arith, e))

left-Fits :
    (p : Place) (s t : Co)
    → t.soft_ticks ≡ s.soft_ticks
    → (s.soft_ticks == t.hard_ticks) ≡ false
    → Fits p s
    → Fits p t
left-Fits Place.waiting s t e n f = tt
left-Fits Place.looking s t e n f = tt
left-Fits (Place.read st ht) s t e n (inl f) = inl f
left-Fits (Place.read st ht) s t e n (inr (f, g)) = inr (f ∙ sym e, rw e n)
left-Fits (Place.sweeping st c) s t e n (f, g) = (rw e f, rw e n)

same-Fits :
    (p : Place) (s t : Co)
    → t.hard_ticks ≡ s.hard_ticks
    → t.soft_ticks ≡ s.soft_ticks
    → Fits p s
    → Fits p t
same-Fits Place.waiting s t h k f = tt
same-Fits Place.looking s t h k f = tt
same-Fits (Place.read st ht) s t h k (inl f) = inl f
same-Fits (Place.read st ht) s t h k (inr (f, g)) = inr (f ∙ sym k, rw (h, k) g)
same-Fits (Place.sweeping st c) s t h k (f, g) = (rw k f, rw (h, k) g)

Step-IsOrdered : {env : Env} {tid : ℕ} {s t : System} → Step env tid s t → IsOrdered s → IsOrdered t
unfolding count_down itself
Step-IsOrdered {env} {tid} {s} (Step.tick g) o = elim (Bool-cases (is_skipped s.co)) [
  | inr e ↦
      let (h, k, n) = tick_left tid s.co e in
      record {
        hard = rw h (ground arith);
        soft = rw k o.soft;
        fits = left-Fits s.place s.co _ k (rw h (ground arith)) o.fits;
        alarm = rw n (ground arith);
      }
  | inl e ↦
      let (h, k, q, n) = tick_skipped tid s.co e in
      record {
        hard = rw h (ground arith);
        soft = rw k (ground arith);
        fits = skipped-Fits s.place s.co _ q o.fits;
        alarm = rw (h, k, q) (ground arith);
      }
]
Step-IsOrdered {env} {tid} {s} (Step.receive w e) o = record {
  hard = o.hard;
  soft = o.soft;
  fits = tt;
  alarm = ground arith;
}
Step-IsOrdered {env} {tid} {s} (Step.look w) o = record {
  hard = o.hard;
  soft = o.soft;
  fits = elim (Bool-cases (s.co.soft_ticks == s.co.hard_ticks)) [
    | inl e ↦ inl (ground arith)
    | inr e ↦ inr (refl, e)
  ];
  alarm = ground arith;
}
Step-IsOrdered {env} {tid} {s} (Step.caught_up st w) o =
    let a = rw w at o.alarm in
    record { hard = o.hard; soft = o.soft; fits = tt; alarm = ground (arith, a) }
Step-IsOrdered {env} {tid} {s} (Step.begin st ht w n) o = record {
  hard = o.hard;
  soft = o.soft;
  fits = elim (subst (λ p. Fits p s.co) w o.fits) [
    | inl e ↦ absurd (n e)
    | inr (f, g) ↦ (ap (λ x. (x + 1) % time_mod) f, g)
  ];
  alarm = ground arith;
}
Step-IsOrdered {env} {tid} {s} (Step.expired st c co w n z e) o =
    let (h, k) = subst (SameTicks itself s.co) e (expire-SameTicks env c s.co) in
    let (f, g) = subst (λ p. Fits p s.co) w o.fits in
    record {
      hard = rw h o.hard;
      soft = rw k o.soft;
      fits = (rw k f, rw (h, k) g);
      alarm = ground arith;
    }
Step-IsOrdered {env} {tid} {s} (Step.later st c w n z) o = record {
  hard = o.hard;
  soft = o.soft;
  fits = subst (λ p. Fits p s.co) w o.fits;
  alarm = ground arith;
}
Step-IsOrdered {env} {tid} {s} (Step.finish st w) o =
    let (f, g) = subst (λ p. Fits p s.co) w o.fits in
    record { hard = o.hard; soft = rw f (ground arith); fits = tt; alarm = ground arith }
Step-IsOrdered {env} {tid} {s} (Step.changed co h k) o = record {
  hard = rw h o.hard;
  soft = rw k o.soft;
  fits = same-Fits s.place s.co co h k o.fits;
  alarm = rw (h, k) o.alarm;
}

start-IsOrdered : {s : System} → IsStart s → IsOrdered s
start-IsOrdered {s} (w, h, e) = record {
  hard = h;
  soft = rw e h;
  fits = subst (λ p. Fits p s.co) (sym w) tt;
  alarm = ground (arith, e);
}

Reach-IsOrdered : {env : Env} {tid : ℕ} {s : System} → Reach env tid s → IsOrdered s
Reach-IsOrdered (Reach.start h) = start-IsOrdered h
Reach-IsOrdered (Reach.next r h) = Step-IsOrdered h (Reach-IsOrdered r)

-- A task that waits has caught up with the ticks, or CALLOUT_EVENT is pending for it: no
-- interleaving of softclock and hardclock loses a tick.
pub no_lost_tick :
    {env : Env} {tid : ℕ} {s : System}
    → Reach env tid s
    → s.place ≡ Place.waiting
    → (s.co.soft_ticks ≡ s.co.hard_ticks) ⊎ (s.event ≡ true)
no_lost_tick {env} {tid} {s} r w =
    let a = rw w at (Reach-IsOrdered r).alarm in
    elim (Bool-cases (s.co.soft_ticks == s.co.hard_ticks)) [
      | inl e ↦ inl (ground arith)
      | inr e ↦ inr (ground (arith, a))
    ]

-- While softclock goes through the slot of a tick, that tick is the one after `soft_ticks`, the
-- task is behind, and hardclock at that moment would not touch `soft_ticks`.
pub sweeping_alone :
    {env : Env} {tid : ℕ} {s : System}
    → Reach env tid s
    → (st c : ℕ) → s.place ≡ Place.sweeping st c
    → (st ≡ (s.co.soft_ticks + 1) % time_mod)
      × (s.co.soft_ticks ≢ s.co.hard_ticks)
      × ((hardclock tid s.co).soft_ticks ≡ s.co.soft_ticks)
sweeping_alone {env} {tid} {s} r st c w =
    let (f, g) = subst (λ p. Fits p s.co) w (Reach-IsOrdered r).fits in
    (f, (λ e. ground arith), (tick_left tid s.co (ground arith)).1)

-- In a run no tick is skipped: a step keeps `soft_ticks`, or it moves it on by one, to a tick. Then
-- softclock has gone through the slot of that tick, from the first callout that the slot had in a
-- state of the run to the end of the list, and has counted down or expired every callout on its way,
-- whatever other code changes meanwhile; or hardclock has found the slot empty and the task not behind.
pub tick_by_tick :
    {env : Env} {tid : ℕ} {s t : System}
    → Reach env tid s
    → Step env tid s t
    → (t.co.soft_ticks ≡ s.co.soft_ticks)
      ⊎ ((t.co.soft_ticks ≡ (s.co.soft_ticks + 1) % time_mod)
          × (((s.place ≡ Place.sweeping t.co.soft_ticks null)
                × ((s₁ : System) × Reach env tid s₁ × Swept env tid t.co.soft_ticks s₁ s))
              ⊎ ((s.co.hard_ticks ≡ s.co.soft_ticks)
                  × (s.co.c_wheel ((s.co.soft_ticks + 1) % time_mod % wheel_size) ≡ null))))
unfolding count_down itself
tick_by_tick {env} {tid} {s} r (Step.tick g) = elim (Bool-cases (is_skipped s.co)) [
  | inr e ↦ inl (tick_left tid s.co e).1
  | inl e ↦ let (h, k, q, n) = tick_skipped tid s.co e in inr (k, inr (q, n))
]
tick_by_tick r (Step.receive w e) = inl refl
tick_by_tick r (Step.look w) = inl refl
tick_by_tick r (Step.caught_up st w) = inl refl
tick_by_tick r (Step.begin st ht w n) = inl refl
tick_by_tick {env} {tid} {s} r (Step.expired st c co w n z e) =
    inl (subst (SameTicks itself s.co) e (expire-SameTicks env c s.co)).1
tick_by_tick r (Step.later st c w n z) = inl refl
tick_by_tick r (Step.finish st w) =
    inr ((sweeping_alone r st null w).0, inl (w, Reach-Swept r st null w))
tick_by_tick r (Step.changed co h k) = inl k
