-- ===== src/Callout/Reset.antt =====
-- callout_stop and callout_reset: the wheel, the timer and the flags after them.
use mathlib.Core.Path.{fun_ext}
use rtems_libbsdport.Prelude.{
  ℕ, ◌+◌, ◌%◌, ◌/◌, ◌<◌, ◌≡◌, refl, subst, ap, ◌≢◌, Bool, true, false, List, [], ◌∷◌, ◌++◌, arith,
  ◌==◌, if◌then◌else◌, Bool-cases, inl, inr, ==→eq, eq→==, ◌⊎◌,
}
use rtems_libbsdport.Prelude.Lists.{
  has, IsDistinct, has-append, has-ne, without, without-absent, without-append,
}
use rtems_libbsdport.Prelude.Memory.{null, update}
use rtems_libbsdport.Prelude.Words.{is_set, set_bit, clear_bit}
use rtems_libbsdport.Callout.{
  Co, slot, next_of, point_back, ok, callout_stop, callout_reset, callout_active, callout_pending,
  arm, wheel_size, time_mod, active_bit, pending_bit,
}
use rtems_libbsdport.Callout.Links.{Linked-frame, Linked-behind, Linked-head}
use rtems_libbsdport.Callout.Wheel.{
  IsWheel, removed, removed-SameTimers, off, deq-removed, removed-IsWheel, on_wheel,
}

-- `x` is in no slot.
abbrev pub Absent : (ℕ → List ℕ) → ℕ → Type 0
Absent b x = (j : ℕ) → has x (b j) ≡ false

-- `x` stands in slot `i` behind `ks`, or in none.
abbrev pub Placed : (ℕ → List ℕ) → ℕ → Type 0
Placed b x = Absent b x ⊎ ((i : ℕ) × (ks : List ℕ) × (xs : List ℕ) × (b i ≡ ks ++ (x ∷ xs)))

abbrev pub all_without : ℕ → (ℕ → List ℕ) → ℕ → List ℕ
all_without x b j = without x (b j)

abbrev pub put_first : ℕ → ℕ → (ℕ → List ℕ) → ℕ → List ℕ
put_first i x b = update b i (x ∷ b i)

-- The state after c_enq.
abbrev enqueued : Co → (i x : ℕ) → Co
enqueued s i x = record s {
  c_next = update s.c_next x (s.c_wheel i);
  c_pprev = update (point_back s.c_pprev (s.c_wheel i) (next_of x)) x (slot i);
  c_wheel = update s.c_wheel i x;
}

module _ (s : Co) (b : ℕ → List ℕ) (w : IsWheel s b) (x : ℕ) (p : x ≢ null)
    (away : Absent b x) where
  head_in : (i : ℕ) → (s.c_wheel i == null) ≡ false → has (s.c_wheel i) (b i) ≡ true
  head_in i z =
      ground (arith, Linked-head s.c_next s.c_pprev (s.c_wheel i) (slot i) (b i) (w.lists i))

  head_off : (i j : ℕ) → (j == i) ≡ false → has (s.c_wheel i) (b j) ≡ false
  head_off i j n = elim (Bool-cases (s.c_wheel i == null)) [
    | inl z ↦ rw (==→eq _ _ z) ((w.distinct j).0)
    | inr z ↦ off s b w i j (s.c_wheel i) (head_in i z) n
  ]

  fresh : (i : ℕ) → IsDistinct (null ∷ x ∷ b i)
  fresh i = (ground (arith, (w.distinct i).0, p), (away i, (w.distinct i).1))

  self_stays : (v : ℕ) → update s.c_next x v x ≡ v
  self_stays v = ground arith

  others : (i a : ℕ) → ((j : ℕ) → has a (put_first i x b j) ≡ false) → Absent b a
  others i a f j = elim (Bool-cases (j == i)) [
    | inl h ↦ rw (==→eq _ _ h) (ground (arith, f i))
    | inr h ↦ ground (arith, f j)
  ]

  enqueued-IsWheel : (i : ℕ) → IsWheel (enqueued s i x) (put_first i x b)
  enqueued-IsWheel i = record {
    lists = λ j. elim (Bool-cases (j == i)) [
      | inl h ↦
          rw (h, ==→eq _ _ h)
            (
              refl,
              ground arith,
              rw (self_stays (s.c_wheel i)) (
                  Linked-behind s.c_next s.c_pprev x (s.c_wheel i) (s.c_wheel i) (next_of x)
                    (slot i) (slot i) (b i) (w.lists i) (fresh i)),
            )
      | inr h ↦ rw h (
          Linked-frame s.c_next s.c_pprev x (s.c_wheel i) (s.c_wheel j) (s.c_wheel i) (next_of x)
            (slot j) (slot i) (b j) (w.lists j) (away j) (head_off i j h))
    ];
    distinct =
        λ j. elim (Bool-cases (j == i)) [ inl h ↦ rw h (fresh i) | inr h ↦ rw h (w.distinct j) ];
    apart = λ j l a h k. ground (arith, w.apart j l a, away j, away l);
    idle = λ a f. (
      ground (
        arith,
        f i,
        w.idle a (others i a f),
        head_in i,
        has-ne (s.c_wheel i) a (b i),
        others i a f i,
      ),
      ground (arith, f i, w.idle a (others i a f)),
    );
  }

-- The value of callout_stop: whether `x` was on the wheel.
abbrev pub is_placed : {b : ℕ → List ℕ} {x : ℕ} → Placed b x → Bool
is_placed (inl _) = false
is_placed (inr _) = true

-- `t` is `s` after callout_stop of `x` with the result `r`.
pub record IsStopped (s : Co) (b : ℕ → List ℕ) (x : ℕ) (r : Bool) (t : Co) : Type 0 where
  pub wheel : IsWheel t (all_without x b)
  pub func : t.c_func ≡ s.c_func
  pub arg : t.c_arg ≡ s.c_arg
  pub mtx : t.c_mtx ≡ s.c_mtx
  pub time : t.c_time ≡ s.c_time
  pub hard : t.hard_ticks ≡ s.hard_ticks
  pub soft : t.soft_ticks ≡ s.soft_ticks
  pub effects : t.effects ≡ s.effects
  pub flags : t.c_flags ≡ (
      if r
      then update s.c_flags x (clear_bit (clear_bit (s.c_flags x) active_bit) pending_bit)
      else s.c_flags)

all_without-unplaced : (x : ℕ) (b : ℕ → List ℕ) → Absent b x → all_without x b ≡ b
all_without-unplaced x b a = fun_ext (λ j. without-absent x (b j) (a j))

pub all_without-update :
    (s : Co) (b : ℕ → List ℕ) (w : IsWheel s b) (i x : ℕ) (ks xs : List ℕ)
    → b i ≡ ks ++ (x ∷ xs)
    → all_without x b ≡ update b i (ks ++ xs)
all_without-update s b w i x ks xs e = fun_ext λ j. elim (Bool-cases (j == i)) [
  | inl h ↦
      rw (h, ==→eq _ _ h, e)
        (without-append x ks xs (subst (λ z. IsDistinct (null ∷ z)) e (w.distinct i)).1)
  | inr h ↦
      rw h (
        without-absent x (b j)
          (off s b w i j x (rw e (ground (arith, has-append x ks (x ∷ xs)))) h))
]

pub all_without-Absent :
    (s : Co) (b : ℕ → List ℕ) (x : ℕ) → IsWheel s b → Absent (all_without x b) x
all_without-Absent s b x w j = gone (b j) (w.distinct j).1
  where
    gone : (xs : List ℕ) → IsDistinct xs → has x (without x xs) ≡ false
    gone [] d = refl
    gone (y ∷ xs) d = ground (arith, gone xs d.1)

-- callout_stop takes a callout off the wheel, clears its two flags and returns true; it returns
-- false and changes nothing for one that is not on the wheel. Neither assertion of c_deq fails.
pub stop-IsStopped :
    (s : Co) (b : ℕ → List ℕ) (x : ℕ)
    → IsWheel s b
    → (p : Placed b x)
    → (t : Co) × (callout_stop x s ≡ ok (is_placed p, t)) × IsStopped s b x (is_placed p) t
unfolding callout_stop
stop-IsStopped s b x w (inl away) = (
  s,
  rw ((w.idle x away).0),
  record {
    wheel = rw (all_without-unplaced x b away) w;
    func = refl;
    arg = refl;
    mtx = refl;
    time = refl;
    hard = refl;
    soft = refl;
    effects = refl;
    flags = refl;
  },
)
stop-IsStopped s b x w (inr (i, ks, xs, e)) =
    let t = removed s i ks x in
    let same = removed-SameTimers s i ks x in
    let v = removed-IsWheel s b w i x ks xs e in
    (
      record t {
        c_flags = update t.c_flags x (clear_bit (clear_bit (t.c_flags x) active_bit) pending_bit);
      },
      rw (on_wheel s b w i x ks xs e, deq-removed s b w i x ks xs e),
      record {
        wheel =
            rw (all_without-update s b w i x ks xs e)
              (record { lists = v.lists; distinct = v.distinct; apart = v.apart; idle = v.idle });
        func = same.func;
        arg = same.arg;
        mtx = same.mtx;
        time = same.time;
        hard = same.hard;
        soft = same.soft;
        effects = same.effects;
        flags = rw same.flags;
      },
    )

-- `t` is `s` after callout_reset of `x`.
pub record IsReset (s : Co) (b : ℕ → List ℕ) (x ticks fn a : ℕ) (t : Co) : Type 0 where
  pub wheel :
      IsWheel t (put_first ((s.hard_ticks + ticks) % time_mod % wheel_size) x (all_without x b))
  pub func : t.c_func ≡ update s.c_func x fn
  pub arg : t.c_arg ≡ update s.c_arg x a
  pub time : t.c_time ≡ update s.c_time x (ticks / wheel_size)
  pub hard : t.hard_ticks ≡ s.hard_ticks
  pub soft : t.soft_ticks ≡ s.soft_ticks
  pub effects : t.effects ≡ s.effects
  pub active : callout_active x t ≡ true
  pub pending : callout_pending x t ≡ true

flags_set :
    (f : ℕ)
    → (is_set (set_bit (set_bit f active_bit) pending_bit) active_bit ≡ true)
      × (is_set (set_bit (set_bit f active_bit) pending_bit) pending_bit ≡ true)
flags_set f = (ground arith, ground arith)

update_self {ℓ} : {A : Type ℓ} (f : ℕ → A) (a : ℕ) (v : A) → update f a v a ≡ v
update_self f a v = rw (eq→== a a refl)

-- callout_reset once its call of callout_stop has returned.
callout_reset_stopped :
    (s : Co) (b : ℕ → List ℕ) (x ticks fn arg : ℕ) (r : Bool) (u : Co)
    → IsWheel s b
    → x ≢ null
    → 0 < ticks
    → callout_stop x s ≡ ok (r, u)
    → IsStopped s b x r u
    → (t : Co) × (callout_reset x ticks fn arg s ≡ ok (r, t)) × IsReset s b x ticks fn arg t
unfolding callout_reset arm callout_active callout_pending
callout_reset_stopped s b x ticks fn arg r u w p h run st =
    let i = (u.hard_ticks + ticks) % time_mod % wheel_size in
    let v : Co = arm x ticks fn arg u in
    let wu = st.wheel in
    let wv : IsWheel v (all_without x b) = record {
      lists = wu.lists;
      distinct = wu.distinct;
      apart = wu.apart;
      idle = wu.idle;
    } in
    let gone = all_without-Absent s b x w in
    let we = enqueued-IsWheel v (all_without x b) wv x p gone i in
    let q = enqueued v i x in
    let flags = set_bit (set_bit (q.c_flags x) active_bit) pending_bit in
    let t : Co = record q { c_flags = update q.c_flags x flags } in
    let wt : IsWheel t (put_first i x (all_without x b)) = record {
      lists = we.lists;
      distinct = we.distinct;
      apart = we.apart;
      idle = we.idle;
    } in
    let positive : (ticks == 0) ≡ false = ground arith in
    (
      t,
      rw (positive, run, (wu.idle x gone).0, (wu.idle x gone).1),
      record {
        wheel =
            subst
              (λ k. IsWheel t (put_first ((k + ticks) % time_mod % wheel_size) x (all_without x b)))
              st.hard wt;
        func = ap (λ f. update f x fn) st.func;
        arg = ap (λ f. update f x arg) st.arg;
        time = ap (λ f. update f x (ticks / wheel_size)) st.time;
        hard = st.hard;
        soft = st.soft;
        effects = st.effects;
        active = rw (update_self q.c_flags x flags) (flags_set (q.c_flags x)).0;
        pending = rw (update_self q.c_flags x flags) (flags_set (q.c_flags x)).1;
      },
    )

-- callout_reset with a positive number of ticks puts the callout into the slot of the tick at which
-- it is due, whether it was on the wheel or not; it sets both flags and returns what callout_stop
-- returned. No assertion fails.
pub callout_reset-IsReset :
    (s : Co) (b : ℕ → List ℕ) (x ticks fn arg : ℕ)
    → IsWheel s b
    → x ≢ null
    → 0 < ticks
    → (p : Placed b x)
    → (t : Co) × (callout_reset x ticks fn arg s ≡ ok (is_placed p, t))
      × IsReset s b x ticks fn arg t
callout_reset-IsReset s b x ticks fn arg w p h pl =
    let (u, run, st) = stop-IsStopped s b x w pl in
    callout_reset_stopped s b x ticks fn arg (is_placed pl) u w p h run st
