-- ===== src/Callout/Due.antt =====
-- callout_reset and softclock of rtems_callout.c together: a callout fires as many ticks after its
-- callout_reset as the wheel makes of the ticks asked for.
use rtems_libbsdport.Prelude.{
  ℕ, suc, ◌+◌, ◌-◌, ◌*◌, ◌%◌, ◌/◌, ◌<◌, ◌≤◌, ◌≡◌, refl, ap, ◌∙◌, ◌≢◌, true, false, List, [], ◌∷◌,
  arith, ◌==◌, if◌then◌else◌, Bool-cases, inl, inr, ==→eq, eq→==, ltb,
}
use rtems_libbsdport.Prelude.Lists.{has, length, without}
use rtems_libbsdport.Prelude.Memory.{null}
use rtems_libbsdport.Callout.{Co, ok, callout_reset, softclock, wheel_size, time_mod}
use rtems_libbsdport.Callout.Wheel.{IsWheel}
use rtems_libbsdport.Callout.Soft.{quiet}
use rtems_libbsdport.Callout.Timing.{remaining}
use rtems_libbsdport.Callout.Reset.{
  IsReset, Placed, is_placed, put_first, all_without, callout_reset-IsReset,
}
use rtems_libbsdport.Callout.Delay.{behind, InRange, softclock-counts_down}

due_ticks : (hard n : ℕ) → ℕ
due_ticks hard n =
    ((hard + n) % time_mod % wheel_size + wheel_size - (hard + 1) % time_mod % wheel_size)
      % wheel_size
    + 1
    + wheel_size * (n / wheel_size)

due : (hard n : ℕ) → due_ticks hard n ≡ (if n % wheel_size == 0 then n + wheel_size else n)
unfolding due_ticks
due hard n = elim (Bool-cases (n % wheel_size == 0)) [
  | inl z ↦ rw z (let e : n % wheel_size ≡ 0 = ==→eq _ _ z in omega arith)
  | inr z ↦ rw z (let e : n % wheel_size ≢ 0 = λ q. absurd (nonzero z q) in omega arith)
]
  where
    nonzero : {m : ℕ} → (m == 0) ≡ false → m ≡ 0 → ⊥
    nonzero z q = ground arith

-- What callout_reset leaves: the callout is in the slot of its tick, with this number of ticks to wait.
reset-remaining :
    (s t : Co) (b : ℕ → List ℕ) (x ticks fn arg : ℕ)
    → IsReset s b x ticks fn arg t
    → InRange s
    → s.soft_ticks ≡ s.hard_ticks
    → 0 < ticks
    → (has x (
          put_first
            ((s.hard_ticks + ticks) % time_mod % wheel_size)
            x
            (all_without x b)
            ((s.hard_ticks + ticks) % time_mod % wheel_size))
        ≡ true)
      × (remaining t ((s.hard_ticks + ticks) % time_mod % wheel_size) x
          ≡ (if ticks % wheel_size == 0 then ticks + wheel_size else ticks))
unfolding due_ticks
reset-remaining s t b x ticks fn arg r g e h =
    (ground arith, rw (r.soft, e, r.time, eq→== x x refl) (due s.hard_ticks ticks))

length-without : (x : ℕ) (xs : List ℕ) → length (without x xs) ≤ length xs
length-without x [] = omega arith
length-without x (y ∷ ys) = ground (arith, length-without x ys)

-- `n` ticks come, which hardclock only counts.
abbrev pub later : Co → (n : ℕ) → Co
later t n = record t { hard_ticks = (t.hard_ticks + n) % time_mod }

later-behind :
    (t : Co) (n : ℕ)
    → InRange t
    → t.soft_ticks ≡ t.hard_ticks
    → n < time_mod
    → behind (later t n) ≡ n
later-behind t n r e h = omega arith

-- callout_reset with a positive number of ticks, on a well-formed wheel when all ticks have been
-- handled, and then, when `n` more ticks (fewer than 2 ^ 32) have been counted, softclock, with fuel
-- for every slot and functions that leave the wheel alone: both return, and the callout is still in
-- its slot if and only if `n` is less than the ticks asked for, or, where their number is a multiple
-- of 32, less than 32 ticks more than that. So softclock takes it off after the ticks asked for, or 32
-- too late. It does not matter whether the callout was on the wheel before.
pub softclock-callout_reset :
    (s : Co) (b : ℕ → List ℕ) (x ticks fn arg n fuel : ℕ)
    → IsWheel s b
    → x ≢ null
    → 0 < ticks
    → (p : Placed b x) → InRange s
    → s.soft_ticks ≡ s.hard_ticks
    → n < time_mod
    → ((j : ℕ) → length (b j) + 1 < fuel)
    → (t : Co) × (u : Co) × (b' : ℕ → List ℕ) × (callout_reset x ticks fn arg s
        ≡ ok (is_placed p, t))
      × (softclock quiet (suc n) fuel (later t n) ≡ ok u)
      × IsWheel u b'
      × (has x (b' ((s.hard_ticks + ticks) % time_mod % wheel_size))
          ≡ ltb n (if ticks % wheel_size == 0 then ticks + wheel_size else ticks))
softclock-callout_reset s b x ticks fn arg n fuel w z h p g e l f =
    let (t, run, r) = callout_reset-IsReset s b x ticks fn arg w z h p in
    let i = (s.hard_ticks + ticks) % time_mod % wheel_size in
    let (on, left) = reset-remaining s t b x ticks fn arg r g e h in
    let wt = r.wheel in
    let wl : IsWheel (later t n) (put_first i x (all_without x b)) = record {
      lists = wt.lists;
      distinct = wt.distinct;
      apart = wt.apart;
      idle = wt.idle;
    } in
    let in_range : InRange t = (omega (arith, r.hard), omega (arith, r.soft)) in
    let at : t.soft_ticks ≡ t.hard_ticks = omega (arith, r.hard, r.soft) in
    let (u, b', served, wu, soft, stays, rest) =
      softclock-counts_down n fuel (later t n) (put_first i x (all_without x b)) i x wl (room i)
        (omega arith, in_range.1) (later-behind t n in_range at l) (omega arith) on in
    (t, u, b', run, served, wu, stays ∙ ap (ltb n) left)
  where
    room : (i j : ℕ) → length (put_first i x (all_without x b) j) < fuel
    room i j = ground (arith, length-without x (b i), length-without x (b j), f i, f j)
