-- ===== src/Callout/Links.antt =====
-- Doubly linked lists in the `c_next` and `c_pprev` fields, and taking a node out of one.
use rtems_libbsdport.Prelude.{
  ℕ, ◌≡◌, true, false, List, [], ◌∷◌, ◌++◌, arith, ◌==◌, Bool-cases, inl, inr,
}
use rtems_libbsdport.Prelude.Lists.{has, last_or, IsDistinct, has-append, last_or-has, has-ne}
use rtems_libbsdport.Prelude.Memory.{null, update}
use rtems_libbsdport.Callout.{Loc, nowhere, next_of, point_back}

-- The pointer at location `l` has the value `h`, and from there the list is `xs`.
abbrev pub Linked : (next : ℕ → ℕ) (pprev : ℕ → Loc) → Loc → ℕ → List ℕ → Type 0
Linked next pprev l h [] = h ≡ null
Linked next pprev l h (x ∷ xs) = (h ≡ x) × (pprev x ≡ l) × Linked next pprev (next_of x) (next x) xs

module _ (next : ℕ → ℕ) (pprev : ℕ → Loc) where
  pub Linked-next :
      (a v h : ℕ) (l : Loc) (xs : List ℕ)
      → Linked next pprev l h xs
      → has a xs ≡ false
      → Linked (update next a v) pprev l h xs
  Linked-next a v h l [] d e = d
  Linked-next a v h l (x ∷ xs) d e =
      (d.0, d.1, rw (==-off a x xs e) (Linked-next a v (next x) (next_of x) xs d.2 (ground arith)))
    where
      ==-off : (a x : ℕ) (xs : List ℕ) → has a (x ∷ xs) ≡ false → (x == a) ≡ false
      ==-off a x xs e = ground arith

  pub Linked-pprev :
      (a : ℕ) (v : Loc) (h : ℕ) (l : Loc) (xs : List ℕ)
      → Linked next pprev l h xs
      → has a xs ≡ false
      → Linked next (update pprev a v) l h xs
  Linked-pprev a v h l [] d e = d
  Linked-pprev a v h l (x ∷ xs) d e =
      (d.0, ground (arith, d.1), Linked-pprev a v (next x) (next_of x) xs d.2 (ground arith))

  -- The neighbour's back pointer is written only if there is a neighbour.
  pub Linked-point_back :
      (n : ℕ) (v : Loc) (h : ℕ) (l : Loc) (xs : List ℕ)
      → Linked next pprev l h xs
      → has n xs ≡ false
      → Linked next (point_back pprev n v) l h xs
  Linked-point_back n v h l xs d e = elim (Bool-cases (n == null)) [
    | inl z ↦ rw z d
    | inr z ↦ rw z (Linked-pprev n v h l xs d e)
  ]

-- Writing the links of `x` and the back pointer of `n` rewrites no field of a list with neither.
pub Linked-frame :
    (next : ℕ → ℕ) (pprev : ℕ → Loc) (x n h v : ℕ) (l m u : Loc) (xs : List ℕ)
    → Linked next pprev m h xs
    → has x xs ≡ false
    → has n xs ≡ false
    → Linked (update next x v) (update (point_back pprev n l) x u) m h xs
Linked-frame next pprev x n h v l m u xs d e f =
    Linked-next next _ x v h m xs
      (Linked-pprev next _ x u h m xs (Linked-point_back next pprev n l h m xs d f) e) e

-- The list at `h` once its first node points back at `l`, and the links of `x` have changed.
pub Linked-behind :
    (next : ℕ → ℕ) (pprev : ℕ → Loc) (x h v : ℕ) (l m u : Loc) (xs : List ℕ)
    → Linked next pprev m h xs
    → IsDistinct (null ∷ x ∷ xs)
    → Linked (update next x v) (update (point_back pprev h l) x u) l h xs
Linked-behind next pprev x h v l m u [] d e = d
Linked-behind next pprev x h v l m u (y ∷ ys) d e = (
  d.0,
  ground (arith, d.0, e.0, e.1.0),
  rw (apart-ne x y ys e.1.0) (
      Linked-frame next pprev x h (next y) v l (next_of y) u ys d.2 (ground (arith, e.1.0))
        (ground (arith, d.0, e.1.1.0))),
)
  where
    apart-ne : (x y : ℕ) (ys : List ℕ) → has x (y ∷ ys) ≡ false → (y == x) ≡ false
    apart-ne x y ys f = ground arith

pub Linked-head :
    (next : ℕ → ℕ) (pprev : ℕ → Loc) (h : ℕ) (l : Loc) (xs : List ℕ)
    → Linked next pprev l h xs
    → has h (null ∷ xs) ≡ true
Linked-head next pprev h l [] d = ground arith
Linked-head next pprev h l (x ∷ xs) d = ground (arith, d.0)

pub Linked-after :
    (next : ℕ → ℕ) (pprev : ℕ → Loc) (x h : ℕ) (l : Loc) (ks xs : List ℕ)
    → Linked next pprev l h (ks ++ (x ∷ xs))
    → Linked next pprev (next_of x) (next x) xs
Linked-after next pprev x h l [] xs d = d.2
Linked-after next pprev x h l (k ∷ ks) xs d =
    Linked-after next pprev x (next k) (next_of k) ks xs d.2

-- A node behind the first one is taken out of its list: the node before it takes over its successor.
pub Linked-unlink :
    (next : ℕ → ℕ) (pprev : ℕ → Loc) (x h : ℕ) (l : Loc) (k : ℕ) (ks xs : List ℕ)
    → Linked next pprev l h (k ∷ (ks ++ (x ∷ xs)))
    → IsDistinct (null ∷ k ∷ (ks ++ (x ∷ xs)))
    → (pprev x ≡ next_of (last_or k ks))
      × Linked
          (update (update next (last_or k ks) (next x)) x null)
          (update (point_back pprev (next x) (next_of (last_or k ks))) x nowhere)
          l
          h
          (k ∷ (ks ++ xs))
Linked-unlink next pprev x h l k [] xs d e = (
  d.2.1,
  (
    d.0,
    ground (
      arith,
      d.1,
      e.0,
      e.1.0,
      has-ne (next x) k (null ∷ xs) (Linked-head next pprev (next x) (next_of x) xs d.2.2),
    ),
    rw (first_stays (next x)) (
        Linked-behind (update next k (next x)) pprev x (next x) null (next_of k) (next_of x) nowhere
          xs
          (Linked-next next pprev k (next x) (next x) (next_of x) xs d.2.2 (ground (arith, e.1.0)))
          (ground (arith, e.0), e.1.1)),
  ),
)
  where
    first_stays : (v : ℕ) → update (update next k v) x null k ≡ v
    first_stays v = ground (arith, e.1.0)
Linked-unlink next pprev x h l k (j ∷ ks) xs d e =
    let (back, rest) =
      Linked-unlink next pprev x (next k) (next_of k) j ks xs d.2 (ground (arith, e.0), e.1.1) in
    (
      back,
      (
        d.0,
        ground (
          arith,
          d.1,
          e.0,
          e.1.0,
          has-append k ks (x ∷ xs),
          has-ne (next x) k (null ∷ xs) (
              Linked-head next pprev (next x) (next_of x) xs
                (Linked-after next pprev x (next k) (next_of k) (j ∷ ks) xs d.2)),
        ),
        (
          ground (
            arith,
            rest.0,
            e.1.0,
            has-append k ks (x ∷ xs),
            last_or-has j ks,
            has-ne (last_or j ks) k (j ∷ ks),
          ),
          rest.1,
          rest.2,
        ),
      ),
    )
