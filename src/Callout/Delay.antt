-- ===== src/Callout/Delay.antt =====
-- softclock of rtems_callout.c catches up with the ticks and counts every callout down.
use rtems_libbsdport.Prelude.{
  ℕ, zero, suc, ◌+◌, ◌-◌, ◌%◌, ◌<◌, ◌≤◌, ◌≡◌, refl, sym, subst, ◌∙◌, true, false, List, [], ◌∷◌,
  arith, ◌==◌, Bool-cases, inl, inr, ==→eq, eq→==, ==-false, ltb, ltb→lt, ◌⊎◌,
}
use rtems_libbsdport.Prelude.Lists.{has, length}
use rtems_libbsdport.Prelude.Memory.{update}
use rtems_libbsdport.Callout.{Co, ok, softclock, wheel_size, time_mod}
use rtems_libbsdport.Callout.Wheel.{IsWheel}
use rtems_libbsdport.Callout.Soft.{quiet, live}
use rtems_libbsdport.Callout.Timing.{
  next_slot, remaining, IsRound, soft_round-IsRound, soft_round-counts_down, has-live,
}

-- The ticks that softclock has not handled yet.
abbrev pub behind : Co → ℕ
behind s = (s.hard_ticks + time_mod - s.soft_ticks) % time_mod

-- Both counters are in the range of their type.
abbrev pub InRange : Co → Type 0
InRange s = (s.hard_ticks < time_mod) × (s.soft_ticks < time_mod)

-- What `n` ticks mean for a callout `a` that was in slot `i`.
pub record IsLater (s : Co) (b : ℕ → List ℕ) (i a n : ℕ) (t : Co) (b' : ℕ → List ℕ) : Type 0 where
  pub waits :
      has a (b i) ≡ true
      → n < remaining s i a
      → (has a (b' i) ≡ true) × (remaining t i a + n ≡ remaining s i a)
  pub fires : has a (b i) ≡ true → remaining s i a ≤ n → has a (b' i) ≡ false
  pub stays_off : has a (b i) ≡ false → has a (b' i) ≡ false

length-live : (time : ℕ → ℕ) (xs : List ℕ) → length (live time xs) ≤ length xs
length-live time [] = omega arith
length-live time (x ∷ xs) = ground (arith, length-live time xs)

IsLater-step :
    (s u t : Co) (b b' : ℕ → List ℕ) (i a n : ℕ)
    → IsWheel s b
    → IsRound s b u
    → i < wheel_size
    → IsLater u (update b (next_slot s) (live s.c_time (b (next_slot s)))) i a n t b'
    → IsLater s b i a (suc n) t b'
IsLater-step s u t b b' i a n w r h l = record {
  waits = λ m e.
      let (on, less) = soft_round-counts_down s u b i a w r h m in
      let (stays, left) = l.waits (ground arith) (ground (arith, less)) in
      (stays, ground (arith, less));
  fires = λ m e.
      let (on, less) = soft_round-counts_down s u b i a w r h m in
      elim (Bool-cases (remaining s i a == 1)) [
        | inl one ↦ l.stays_off (ground arith)
        | inr more ↦ l.fires (ground arith) (ground (arith, less))
      ];
  stays_off = λ m. l.stays_off (gone m);
}
  where
    gone :
        has a (b i) ≡ false
        → has a (update b (next_slot s) (live s.c_time (b (next_slot s))) i) ≡ false
    gone m = elim (Bool-cases (i == next_slot s)) [
      | inl e ↦ rw e (
          rw (has-live s.c_time a (b (next_slot s)))
            (ground (arith, subst (λ j. has a (b j) ≡ false) (==→eq _ _ e) m)))
      | inr e ↦ rw e m
    ]

-- softclock ends with all ticks handled, and counts every callout down by the ticks it was behind:
-- one that had more rounds to wait is still in its slot, any other has been taken off the wheel.
pub softclock-IsLater :
    (n fuel : ℕ) (s : Co) (b : ℕ → List ℕ) (i a : ℕ)
    → IsWheel s b
    → ((j : ℕ) → length (b j) < fuel)
    → InRange s
    → behind s ≡ n
    → i < wheel_size
    → (t : Co) × (b' : ℕ → List ℕ) × (softclock quiet (suc n) fuel s ≡ ok t)
      × IsWheel t b'
      × (t.soft_ticks ≡ s.hard_ticks)
      × (t.hard_ticks ≡ s.hard_ticks)
      × IsLater s b i a n t b'
unfolding softclock
softclock-IsLater zero fuel s b i a w f r e h =
    let caught : s.soft_ticks ≡ s.hard_ticks = omega arith in
    (
      s,
      b,
      rw (eq→== _ _ caught),
      w,
      caught,
      refl,
      record {
        waits = λ m l. (m, omega arith);
        fires = λ m l. absurd (omega arith);
        stays_off = λ m. m;
      },
    )
softclock-IsLater (suc n) fuel s b i a w f r e h =
    let (u, run, ro) = soft_round-IsRound fuel s b w f in
    let (t, b', more, wt, soft, hard, later) =
      softclock-IsLater n fuel u _ i a ro.wheel fewer (omega (arith, ro.hard, ro.soft))
        (omega (arith, ro.hard, ro.soft)) h in
    (
      t,
      b',
      rw (not_caught, run) more,
      wt,
      soft ∙ ro.hard,
      hard ∙ ro.hard,
      IsLater-step s u t b b' i a n w ro h later,
    )
  where
    fewer : (j : ℕ) → length (update b (next_slot s) (live s.c_time (b (next_slot s))) j) < fuel
    fewer j = ground (arith, length-live s.c_time (b (next_slot s)), f j, f (next_slot s))

    not_caught : (s.soft_ticks == s.hard_ticks) ≡ false
    not_caught = ==-false s.soft_ticks s.hard_ticks (omega arith)

-- softclock, behind by `n` ticks, ends with all ticks handled, and counts a callout on the wheel
-- down by `n`: it is still in its slot if and only if it had more than `n` rounds to wait, and then
-- it has `n` less; otherwise it has been taken off the wheel. The callouts' functions leave the
-- wheel alone here, and no tick comes while softclock runs.
pub softclock-counts_down :
    (n fuel : ℕ) (s : Co) (b : ℕ → List ℕ) (i a : ℕ)
    → IsWheel s b
    → ((j : ℕ) → length (b j) < fuel)
    → InRange s
    → behind s ≡ n
    → i < wheel_size
    → has a (b i) ≡ true
    → (t : Co) × (b' : ℕ → List ℕ) × (softclock quiet (suc n) fuel s ≡ ok t)
      × IsWheel t b'
      × (t.soft_ticks ≡ s.hard_ticks)
      × (has a (b' i) ≡ ltb n (remaining s i a))
      × ((remaining s i a ≤ n) ⊎ (remaining t i a + n ≡ remaining s i a))
softclock-counts_down n fuel s b i a w f r e h m =
    let (t, b', run, wt, soft, hard, later) = softclock-IsLater n fuel s b i a w f r e h in
    elim (Bool-cases (ltb n (remaining s i a))) [
      | inl more ↦
          let (on, left) = later.waits m (ltb→lt _ _ more) in
          (t, b', run, wt, soft, on ∙ sym more, inr left)
      | inr less ↦
          let done : remaining s i a ≤ n = reached less in
          (t, b', run, wt, soft, later.fires m done ∙ sym less, inl done)
    ]
  where
    reached : ltb n (remaining s i a) ≡ false → remaining s i a ≤ n
    reached l = ground arith
