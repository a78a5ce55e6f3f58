-- ===== src/Callout/Swept.antt =====
-- How softclock of rtems_callout.c goes through the list of one slot, told without the steps of the
-- task: from the first callout of the slot, by `c_next`, each callout is counted down or expired.
use rtems_libbsdport.Prelude.{ℕ, ◌%◌, ◌≡◌, ◌≢◌, refl, sym, subst, ◌∙◌}
use rtems_libbsdport.Prelude.Memory.{null}
use rtems_libbsdport.Callout.{ok, Env, expire, count_down, hardclock, wheel_size}
use rtems_libbsdport.Callout.Ticks.{Place, System, Step, Reach, IsStart}

-- From `s₁`, where the task is at the first callout of the slot of the tick `st`, the task has come
-- to its place in the system of the index; ticks and other code come between.
pub data Swept (env : Env) (tid st : ℕ) (s₁ : System) : System → Type 0 where
  begun : s₁.place ≡ Place.sweeping st (s₁.co.c_wheel (st % wheel_size)) → Swept env tid st s₁ s₁
  -- A callout whose rounds are over is expired.
  expired :
      {s t : System} (c : ℕ)
      → Swept env tid st s₁ s
      → s.place ≡ Place.sweeping st c
      → c ≢ null
      → s.co.c_time c ≡ 0
      → expire env c s.co ≡ ok t.co
      → t.place ≡ Place.sweeping st (s.co.c_next c)
      → Swept env tid st s₁ t
  -- Any other has a round less.
  counted :
      {s t : System} (c : ℕ)
      → Swept env tid st s₁ s
      → s.place ≡ Place.sweeping st c
      → c ≢ null
      → s.co.c_time c ≢ 0
      → t.co ≡ count_down c s.co
      → t.place ≡ Place.sweeping st (s.co.c_next c)
      → Swept env tid st s₁ t
  ticked :
      {s t : System}
      → Swept env tid st s₁ s
      → t.co ≡ hardclock tid s.co
      → t.place ≡ s.place
      → Swept env tid st s₁ t
  changed :
      {s t : System}
      → Swept env tid st s₁ s
      → t.co.soft_ticks ≡ s.co.soft_ticks
      → t.place ≡ s.place
      → Swept env tid st s₁ t

module _ (env : Env) (tid : ℕ) where
  -- A state of the run where the slot was begun, and the way from there.
  abbrev From : ℕ → System → Type 0
  From st s = (s₁ : System) × Reach env tid s₁ × Swept env tid st s₁ s

  abbrev Trail : System → Type 0
  Trail s = (st c : ℕ) → s.place ≡ Place.sweeping st c → From st s

  same_slot :
      (s : System) (st st' c c' : ℕ)
      → Place.sweeping st c ≡ Place.sweeping st' c'
      → From st s
      → From st' s
  same_slot s st st' c c' e f = let k : st ≡ st' = cc in subst (λ x. From x s) k f

  Step-Trail : {s t : System} → Reach env tid s → Step env tid s t → Trail s → Trail t
  Step-Trail r (Step.tick g) h st c w =
      let (s₁, r₁, p) = h st c w in (s₁, r₁, Swept.ticked p refl refl)
  Step-Trail r (Step.receive w' e) h st c w = absurd cc
  Step-Trail r (Step.look w') h st c w = absurd cc
  Step-Trail r (Step.caught_up st' w') h st c w = absurd cc
  Step-Trail {s} r (Step.begin st' ht w' n) h st c w =
      let r₁ = Reach.next r (Step.begin st' ht w' n) in
      same_slot _ _ st _ c w (_, r₁, Swept.begun refl)
  Step-Trail {s} r (Step.expired st' c' co w' n z e) h st c w =
      let t : System = record s { co = co; place = Place.sweeping st' (s.co.c_next c') } in
      let (s₁, r₁, p) = h st' c' w' in
      same_slot t st' st _ c w (s₁, r₁, Swept.expired c' p w' n z e refl)
  Step-Trail {s} r (Step.later st' c' w' n z) h st c w =
      let t : System = record s {
        co = count_down c' s.co;
        place = Place.sweeping st' (s.co.c_next c');
      } in
      let (s₁, r₁, p) = h st' c' w' in
      same_slot t st' st _ c w (s₁, r₁, Swept.counted c' p w' n z refl refl)
  Step-Trail r (Step.finish st' w') h st c w = absurd cc
  Step-Trail r (Step.changed co k l) h st c w =
      let (s₁, r₁, p) = h st c w in (s₁, r₁, Swept.changed p l refl)

  start-Trail : {s : System} → IsStart s → Trail s
  start-Trail i st c w = absurd (let e = sym (i.0) ∙ w in cc)

  Reach-Trail : {s : System} → Reach env tid s → Trail s
  Reach-Trail (Reach.start i) = start-Trail i
  Reach-Trail (Reach.next r h) = Step-Trail r h (Reach-Trail r)

-- While softclock is in a slot, the slot has been gone through from its first callout.
pub Reach-Swept :
    {env : Env} {tid : ℕ} {s : System}
    → Reach env tid s
    → (st c : ℕ) → s.place ≡ Place.sweeping st c
    → (s₁ : System) × Reach env tid s₁ × Swept env tid st s₁ s
Reach-Swept {env} {tid} r st c w = Reach-Trail env tid r st c w
