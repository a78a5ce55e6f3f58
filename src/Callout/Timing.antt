-- ===== src/Callout/Timing.antt =====
-- When a callout fires: the rounds of softclock that it has to wait, as a countdown.
use rtems_libbsdport.Prelude.{
  ℕ, ◌+◌, ◌-◌, ◌*◌, ◌%◌, ◌<◌, ◌≡◌, refl, subst, ap, ◌≢◌, true, false, not, List, [], ◌∷◌, ◌++◌,
  arith, ◌==◌, if◌then◌else◌, Bool-cases, inl, inr, ==→eq, eq→==,
}
use rtems_libbsdport.Prelude.Lists.{has, length}
use rtems_libbsdport.Prelude.Memory.{update}
use rtems_libbsdport.Callout.{Co, slot, ok, soft_round, wheel_size, time_mod}
use rtems_libbsdport.Callout.Wheel.{IsWheel}
use rtems_libbsdport.Callout.Soft.{quiet, live, fired, Linked-head_of, slot_loop-IsSwept}

-- The slot that the next round sweeps.
abbrev pub next_slot : Co → ℕ
next_slot s = (s.soft_ticks + 1) % time_mod % wheel_size

-- The rounds until a callout `a` in slot `i` fires, the round that fires it included.
abbrev pub remaining : Co → (i a : ℕ) → ℕ
remaining s i a = (i + wheel_size - next_slot s) % wheel_size + 1 + wheel_size * s.c_time a

-- The state after one round that sweeps the slot `k`.
pub record IsRound (s : Co) (b : ℕ → List ℕ) (t : Co) : Type 0 where
  pub wheel : IsWheel t (update b (next_slot s) (live s.c_time (b (next_slot s))))
  pub time : (a : ℕ) → t.c_time a ≡ (if has a (b (next_slot s)) then s.c_time a - 1 else s.c_time a)
  pub func : t.c_func ≡ s.c_func
  pub arg : t.c_arg ≡ s.c_arg
  pub hard : t.hard_ticks ≡ s.hard_ticks
  pub soft : t.soft_ticks ≡ (s.soft_ticks + 1) % time_mod
  pub effects : t.effects ≡ s.effects ++ fired s.c_func s.c_arg s.c_time (b (next_slot s))

-- With fuel for every slot and functions that leave the wheel alone, one round of softclock sweeps
-- the slot of the next tick: it takes the callouts without rounds left off the wheel and calls
-- their functions, in the order of the list, counts the others of the slot down, and advances
-- `soft_ticks`.
pub soft_round-IsRound :
    (fuel : ℕ) (s : Co) (b : ℕ → List ℕ)
    → IsWheel s b
    → ((i : ℕ) → length (b i) < fuel)
    → (t : Co) × (soft_round quiet fuel s ≡ ok t) × IsRound s b t
unfolding soft_round
soft_round-IsRound fuel s b w f =
    let (t, run, sw) =
      slot_loop-IsSwept fuel (s.c_wheel (next_slot s)) s b (next_slot s) [] (b (next_slot s)) w refl
        (Linked-head_of s.c_next s.c_pprev (s.c_wheel (next_slot s)) (slot (next_slot s))
          (b (next_slot s)) (w.lists (next_slot s)))
        (f (next_slot s)) in
    let wt = sw.wheel in
    (
      record t { soft_ticks = (s.soft_ticks + 1) % time_mod },
      rw run,
      record {
        wheel = record {
          lists = wt.lists;
          distinct = wt.distinct;
          apart = wt.apart;
          idle = wt.idle;
        };
        time = sw.time;
        func = sw.func;
        arg = sw.arg;
        hard = sw.hard;
        soft = refl;
        effects = sw.effects;
      },
    )

pub has-live :
    (time : ℕ → ℕ) (a : ℕ) (xs : List ℕ)
    → has a (live time xs) ≡ (if time a == 0 then false else has a xs)
has-live time a [] = ground arith
has-live time a (x ∷ xs) = ground (arith, has-live time a xs, ap time)

-- The rounds until slot `i` is swept when `soft` is the last tick handled, and `t` rounds are left.
abbrev wait : (soft i t : ℕ) → ℕ
wait soft i t =
    (i + wheel_size - (soft + 1) % time_mod % wheel_size) % wheel_size + 1 + wheel_size * t

wait_here : (soft t : ℕ) → wait soft ((soft + 1) % time_mod % wheel_size) t ≡ 1 + wheel_size * t
wait_here soft t = omega arith

wait_passed :
    (soft t : ℕ)
    → 0 < t
    → wait ((soft + 1) % time_mod) ((soft + 1) % time_mod % wheel_size) (t - 1) ≡ wheel_size * t
wait_passed soft t h = omega arith

wait_elsewhere :
    (soft i t : ℕ)
    → i < wheel_size
    → i ≢ (soft + 1) % time_mod % wheel_size
    → (1 < wait soft i t) × (wait ((soft + 1) % time_mod) i t ≡ wait soft i t - 1)
wait_elsewhere soft i t h n = omega arith

update_self : (f : ℕ → List ℕ) (a : ℕ) (v : List ℕ) → update f a v a ≡ v
update_self f a v = rw (eq→== a a refl)

-- A round counts every callout on the wheel down by one: one with a single round to wait is taken
-- off the wheel, any other stays in its slot with one round less to wait.
pub soft_round-counts_down :
    (s t : Co) (b : ℕ → List ℕ) (i a : ℕ)
    → IsWheel s b
    → IsRound s b t
    → i < wheel_size
    → has a (b i) ≡ true
    → (has a (update b (next_slot s) (live s.c_time (b (next_slot s))) i)
        ≡ not (remaining s i a == 1))
      × (remaining s i a ≢ 1 → remaining t i a ≡ remaining s i a - 1)
soft_round-counts_down s t b i a w r h m = elim (Bool-cases (i == next_slot s)) [
  | inl e ↦ swept (==→eq _ _ e)
  | inr e ↦
      let (late, less) = wait_elsewhere s.soft_ticks i (s.c_time a) h (ne e) in
      let off : has a (b (next_slot s)) ≡ false = ground (arith, w.apart i (next_slot s) a) in
      (rw e (ground arith), λ n. ground (arith, r.time a, r.soft))
]
  where
    ne : (i == next_slot s) ≡ false → i ≢ next_slot s
    ne e q = ground arith

    swept :
        i ≡ next_slot s
        → (has a (update b (next_slot s) (live s.c_time (b (next_slot s))) i)
            ≡ not (remaining s i a == 1))
          × (remaining s i a ≢ 1 → remaining t i a ≡ remaining s i a - 1)
    swept e =
        let k = next_slot s in
        let on : has a (b k) ≡ true = subst (λ j. has a (b j) ≡ true) e m in
        rw e (
          rw
              (
                update_self b k (live s.c_time (b k)),
                has-live s.c_time a (b k),
                on,
                wait_here s.soft_ticks (s.c_time a),
              )
              (ground arith),
          λ n. ground (
            arith,
            r.time a,
            r.soft,
            wait_here s.soft_ticks (s.c_time a),
            wait_passed s.soft_ticks (s.c_time a),
          ),
        )
