-- ===== src/Callout/Wheel.antt =====
-- The invariant of the wheel, and what c_deq does to it.
use rtems_libbsdport.Prelude.{
  ℕ, ◌≡◌, refl, subst, true, false, List, [], ◌∷◌, ◌++◌, arith, ◌==◌, if◌then◌else◌, Bool-cases,
  inl, inr, ==→eq, ◌⊎◌,
}
use rtems_libbsdport.Prelude.Lists.{
  has, last_or, IsDistinct, IsDistinct-remove, IsDistinct-absent, has-append, last_or-has, has-ne,
}
use rtems_libbsdport.Prelude.Memory.{null, update}
use rtems_libbsdport.Callout.{
  Co, Loc, nowhere, slot, next_of, ok, c_deq, unlink, deq_at, is_nowhere,
}
use rtems_libbsdport.Callout.Links.{
  Linked, Linked-next, Linked-frame, Linked-behind, Linked-unlink, Linked-head, Linked-after,
}

-- Slot `i` holds the callouts `b i`; no callout is in two slots; one that is in none has null links.
pub record IsWheel (s : Co) (b : ℕ → List ℕ) : Type 0 where
  pub lists : (i : ℕ) → Linked s.c_next s.c_pprev (slot i) (s.c_wheel i) (b i)
  pub distinct : (i : ℕ) → IsDistinct (null ∷ b i)
  pub apart : (i j a : ℕ) → has a (b i) ≡ true → has a (b j) ≡ true → i ≡ j
  pub idle :
      (a : ℕ) → ((i : ℕ) → has a (b i) ≡ false) → (s.c_pprev a ≡ nowhere) × (s.c_next a ≡ null)

-- What taking a callout out leaves alone.
pub record SameTimers (s t : Co) : Type 0 where
  pub func : t.c_func ≡ s.c_func
  pub arg : t.c_arg ≡ s.c_arg
  pub mtx : t.c_mtx ≡ s.c_mtx
  pub time : t.c_time ≡ s.c_time
  pub flags : t.c_flags ≡ s.c_flags
  pub hard : t.hard_ticks ≡ s.hard_ticks
  pub soft : t.soft_ticks ≡ s.soft_ticks
  pub effects : t.effects ≡ s.effects

-- The state once `x` has left slot `i`, where `ks` stand before it.
unfoldable pub removed : Co → (i : ℕ) (ks : List ℕ) (x : ℕ) → Co
unfolding unlink
removed s i [] x =
    unlink (record s { c_wheel = update s.c_wheel i (s.c_next x) }) x (s.c_next x) (slot i)
removed s i (k ∷ ks) x =
    unlink (record s { c_next = update s.c_next (last_or k ks) (s.c_next x) }) x (s.c_next x)
      (next_of (last_or k ks))

pub removed-SameTimers : (s : Co) (i : ℕ) (ks : List ℕ) (x : ℕ) → SameTimers s (removed s i ks x)
unfolding removed
removed-SameTimers s i [] x = record {
  func = refl;
  arg = refl;
  mtx = refl;
  time = refl;
  flags = refl;
  hard = refl;
  soft = refl;
  effects = refl;
}
removed-SameTimers s i (k ∷ ks) x = record {
  func = refl;
  arg = refl;
  mtx = refl;
  time = refl;
  flags = refl;
  hard = refl;
  soft = refl;
  effects = refl;
}

abbrev back_of : ℕ → List ℕ → Loc
back_of i [] = slot i
back_of i (k ∷ ks) = next_of (last_or k ks)

back_of-somewhere : (i : ℕ) (ks : List ℕ) → is_nowhere (back_of i ks) ≡ false
back_of-somewhere i [] = refl
back_of-somewhere i (k ∷ ks) = refl

deq_lem :
    (s : Co) (i : ℕ) (ks : List ℕ) (x : ℕ)
    → s.c_pprev x ≡ back_of i ks
    → c_deq x s ≡ ok (removed s i ks x)
unfolding c_deq removed
deq_lem s i [] x e = rw (e, deq_at)
deq_lem s i (k ∷ ks) x e = rw (e, deq_at)

list-back :
    (next : ℕ → ℕ) (pprev : ℕ → Loc) (i h x : ℕ) (ks xs : List ℕ)
    → Linked next pprev (slot i) h (ks ++ (x ∷ xs))
    → IsDistinct (null ∷ (ks ++ (x ∷ xs)))
    → pprev x ≡ back_of i ks
list-back next pprev i h x [] xs d e = d.1
list-back next pprev i h x (k ∷ ks) xs d e = (Linked-unlink next pprev x h (slot i) k ks xs d e).0

-- The slot that `x` leaves.
removed-Linked_self :
    (s : Co) (i x : ℕ) (ks xs : List ℕ)
    → Linked s.c_next s.c_pprev (slot i) (s.c_wheel i) (ks ++ (x ∷ xs))
    → IsDistinct (null ∷ (ks ++ (x ∷ xs)))
    → Linked
        (removed s i ks x).c_next
        (removed s i ks x).c_pprev
        (slot i)
        ((removed s i ks x).c_wheel i)
        (ks ++ xs)
unfolding removed
removed-Linked_self s i x [] xs d e =
    rw (self_stays (s.c_next x))
      (Linked-behind s.c_next s.c_pprev x (s.c_next x) null (slot i) (next_of x) nowhere xs d.2 e)
  where
    self_stays : (v : ℕ) → update s.c_wheel i v i ≡ v
    self_stays v = ground arith
removed-Linked_self s i x (k ∷ ks) xs d e =
    (Linked-unlink s.c_next s.c_pprev x (s.c_wheel i) (slot i) k ks xs d e).1

-- Any other slot.
removed-Linked_other :
    (s : Co) (i x j : ℕ) (ks ys : List ℕ)
    → Linked s.c_next s.c_pprev (slot j) (s.c_wheel j) ys
    → (j == i) ≡ false
    → has x ys ≡ false
    → has (s.c_next x) ys ≡ false
    → ((a : ℕ) → has a ks ≡ true → has a ys ≡ false)
    → Linked
        (removed s i ks x).c_next
        (removed s i ks x).c_pprev
        (slot j)
        ((removed s i ks x).c_wheel j)
        ys
unfolding removed
removed-Linked_other s i x j [] ys d n e f g = rw n (
    Linked-frame s.c_next s.c_pprev x (s.c_next x) (s.c_wheel j) null (slot i) (slot j) nowhere ys d
      e f)
removed-Linked_other s i x j (k ∷ ks) ys d n e f g =
    Linked-frame _ s.c_pprev x (s.c_next x) (s.c_wheel j) null (next_of (last_or k ks)) (slot j)
      nowhere ys
      (Linked-next s.c_next s.c_pprev (last_or k ks) (s.c_next x) (s.c_wheel j) (slot j) ys d
        (g (last_or k ks) (last_or-has k ks)))
      e f

-- A callout that is in no slot then has null links.
removed-idle :
    (s : Co) (i x a : ℕ) (ks : List ℕ)
    → (has a (x ∷ []) ≡ true)
      ⊎ ((s.c_pprev a ≡ nowhere)
          × (s.c_next a ≡ null)
          × (has a ks ≡ false)
          × ((s.c_next x == null) ≡ false → (a == s.c_next x) ≡ false))
    → ((removed s i ks x).c_pprev a ≡ nowhere) × ((removed s i ks x).c_next a ≡ null)
unfolding removed
removed-idle s i x a [] (inl h) = (ground arith, ground arith)
removed-idle s i x a [] (inr (p, n, k, f)) = (ground (arith, f), ground arith)
removed-idle s i x a (k ∷ ks) (inl h) = (ground arith, ground arith)
removed-idle s i x a (k ∷ ks) (inr (p, n, h, f)) =
    (ground (arith, f), ground (arith, last_or-has k ks, has-ne (last_or k ks) a (k ∷ ks)))

module _ (s : Co) (b : ℕ → List ℕ) (w : IsWheel s b) where
  pub off : (i j a : ℕ) → has a (b i) ≡ true → (j == i) ≡ false → has a (b j) ≡ false
  off i j a h n = ground (arith, w.apart i j a)

module _ (s : Co) (b : ℕ → List ℕ) (w : IsWheel s b) (i x : ℕ) (ks xs : List ℕ)
    (e : b i ≡ ks ++ (x ∷ xs)) where
  here : has x (b i) ≡ true
  here = rw e (ground (arith, has-append x ks (x ∷ xs)))

  list : Linked s.c_next s.c_pprev (slot i) (s.c_wheel i) (ks ++ (x ∷ xs))
  list = subst (λ z. Linked s.c_next s.c_pprev (slot i) (s.c_wheel i) z) e (w.lists i)

  nodup : IsDistinct (null ∷ (ks ++ (x ∷ xs)))
  nodup = subst (λ z. IsDistinct (null ∷ z)) e (w.distinct i)

  next_in : (s.c_next x == null) ≡ false → has (s.c_next x) (b i) ≡ true
  next_in z = rw e (
      ground (
        arith,
        has-append (s.c_next x) ks (x ∷ xs),
        Linked-head s.c_next s.c_pprev (s.c_next x) (next_of x) xs
            (Linked-after s.c_next s.c_pprev x (s.c_wheel i) (slot i) ks xs list),
      ))

  -- The successor of `x` is in no other slot.
  next_off : (j : ℕ) → (j == i) ≡ false → has (s.c_next x) (b j) ≡ false
  next_off j n = elim (Bool-cases (s.c_next x == null)) [
    | inl z ↦ rw (==→eq _ _ z) ((w.distinct j).0)
    | inr z ↦ off s b w i j (s.c_next x) (next_in z) n
  ]

  pub deq-removed : c_deq x s ≡ ok (removed s i ks x)
  deq-removed = deq_lem s i ks x (list-back s.c_next s.c_pprev i (s.c_wheel i) x ks xs list nodup)

  pub on_wheel : is_nowhere (s.c_pprev x) ≡ false
  on_wheel =
      rw (list-back s.c_next s.c_pprev i (s.c_wheel i) x ks xs list nodup) (back_of-somewhere i ks)

  -- Each slot's list without `x`.
  pub has-left :
      (a j : ℕ) → has a (update b i (ks ++ xs) j) ≡ (if a == x then false else has a (b j))
  has-left a j = elim (Bool-cases (j == i)) [
    | inl h ↦
        rw (h, ==→eq _ _ h, e)
          (ground (
            arith,
            has-append a ks xs,
            has-append a ks (x ∷ xs),
            IsDistinct-absent x ks xs nodup.1,
            has-append x ks xs,
          ))
    | inr h ↦ rw h (ground (arith, off s b w i j x here))
  ]

  stays_idle :
      (a : ℕ)
      → ((j : ℕ) → has a (update b i (ks ++ xs) j) ≡ false)
      → (a == x) ≡ false
      → (s.c_pprev a ≡ nowhere)
        × (s.c_next a ≡ null)
        × (has a ks ≡ false)
        × ((s.c_next x == null) ≡ false → (a == s.c_next x) ≡ false)
  stays_idle a f h =
      let g : (j : ℕ) → has a (b j) ≡ false = λ j. ground (arith, f j, has-left a j) in
      let gi : has a (ks ++ (x ∷ xs)) ≡ false = rw e at (g i) in
      (
        (w.idle a g).0,
        (w.idle a g).1,
        ground (arith, has-append a ks (x ∷ xs)),
        λ z. ground (arith, has-ne (s.c_next x) a (b i) (next_in z) (g i)),
      )

  pub removed-IsWheel : IsWheel (removed s i ks x) (update b i (ks ++ xs))
  removed-IsWheel = record {
    lists = λ j. elim (Bool-cases (j == i)) [
      | inl h ↦ rw (h, ==→eq _ _ h) (removed-Linked_self s i x ks xs list nodup)
      | inr h ↦ rw h (
          removed-Linked_other s i x j ks (b j) (w.lists j) h (off s b w i j x here h)
            (next_off j h)
            λ a k. off s b w i j a (rw e (ground (arith, has-append a ks (x ∷ xs)))) h)
    ];
    distinct = λ j. elim (Bool-cases (j == i)) [
      | inl h ↦ rw h (IsDistinct-remove x (null ∷ ks) xs nodup)
      | inr h ↦ rw h (w.distinct j)
    ];
    apart =
        λ j l a h k. w.apart j l a (ground (arith, has-left a j)) (ground (arith, has-left a l));
    idle = λ a f. removed-idle s i x a ks (elim (Bool-cases (a == x)) [
      | inl h ↦ inl (ground arith)
      | inr h ↦ inr (stays_idle a f h)
    ]);
  }
