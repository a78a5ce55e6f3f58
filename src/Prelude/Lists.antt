-- ===== src/Prelude/Lists.antt =====
-- Lists measured and indexed by native numbers, and membership as a Boolean test.
use Prim.Native.Nat.{ℕ, zero, suc, ◌+◌}
use mathlib.Core.Path.{◌≡◌, refl}
use mathlib.Core.Bool.{Bool, true, false, ◌||◌}
use mathlib.Core.List.{List, [], ◌∷◌, ◌++◌}
use mathlib.Core.Option.{Option, none, some}
use native.Mathlib.Omega.{arith}
use rtems_libbsdport.Prelude.Tests.{◌==◌, if◌then◌else◌}

module _ {ℓ} {A : Type ℓ} where
  abbrev pub length : List A → ℕ
  length [] = 0
  length (x ∷ xs) = suc (length xs)

  abbrev pub get_elem? : List A → ℕ → Option A
  get_elem? [] i = none
  get_elem? (x ∷ xs) zero = some x
  get_elem? (x ∷ xs) (suc i) = get_elem? xs i

  -- A write out of bounds changes nothing.
  abbrev pub set : List A → ℕ → A → List A
  set [] i v = []
  set (x ∷ xs) zero v = v ∷ xs
  set (x ∷ xs) (suc i) v = x ∷ set xs i v

  abbrev pub take : ℕ → List A → List A
  take zero xs = []
  take (suc n) [] = []
  take (suc n) (x ∷ xs) = x ∷ take n xs

  abbrev pub drop : ℕ → List A → List A
  drop zero xs = xs
  drop (suc n) [] = []
  drop (suc n) (x ∷ xs) = drop n xs

  pub length-append : (xs ys : List A) → length (xs ++ ys) ≡ length xs + length ys
  length-append [] ys = omega arith
  length-append (x ∷ xs) ys = omega (arith, length-append xs ys)

-- `a` is one of the numbers of the list.
abbrev pub has : ℕ → List ℕ → Bool
has a [] = false
has a (x ∷ xs) = (a == x) || has a xs

-- No number stands in the list twice.
abbrev pub IsDistinct : List ℕ → Type 0
IsDistinct [] = Unit {0}
IsDistinct (x ∷ xs) = (has x xs ≡ false) × IsDistinct xs

-- The last element, or `d` where there is none.
abbrev pub last_or : ℕ → List ℕ → ℕ
last_or d [] = d
last_or d (x ∷ xs) = last_or x xs

pub has-append : (a : ℕ) (xs ys : List ℕ) → has a (xs ++ ys) ≡ (has a xs || has a ys)
has-append a [] ys = refl
has-append a (x ∷ xs) ys = ground (arith, has-append a xs ys)

pub last_or-append : (d x : ℕ) (xs : List ℕ) → last_or d (xs ++ (x ∷ [])) ≡ x
last_or-append d x [] = refl
last_or-append d x (y ∷ xs) = last_or-append y x xs

pub IsDistinct-append_one :
    (x : ℕ) (xs : List ℕ) → IsDistinct xs → has x xs ≡ false → IsDistinct (xs ++ (x ∷ []))
IsDistinct-append_one x [] d h = (refl, tt)
IsDistinct-append_one x (y ∷ xs) d h =
    (ground (arith, has-append y xs (x ∷ [])), IsDistinct-append_one x xs d.1 (ground arith))

pub last_or-has : (d : ℕ) (xs : List ℕ) → has (last_or d xs) (d ∷ xs) ≡ true
last_or-has d [] = ground arith
last_or-has d (x ∷ xs) = ground (arith, last_or-has x xs)

pub has-ne : (a b : ℕ) (xs : List ℕ) → has a xs ≡ true → has b xs ≡ false → (a == b) ≡ false
has-ne a b [] h k = cc
has-ne a b (x ∷ xs) h k = ground (arith, has-ne a b xs)

-- A new number may be put anywhere.
pub IsDistinct-insert :
    (t : ℕ) (xs ys : List ℕ)
    → IsDistinct (xs ++ ys)
    → has t (xs ++ ys) ≡ false
    → IsDistinct ((xs ++ (t ∷ [])) ++ ys)
IsDistinct-insert t [] ys d h = (h, d)
IsDistinct-insert t (x ∷ xs) ys d h = (
  ground (arith, has-append x (xs ++ (t ∷ [])) ys, has-append x xs (t ∷ []), has-append x xs ys),
  IsDistinct-insert t xs ys d.1 (ground arith),
)

pub IsDistinct-left : (xs ys : List ℕ) → IsDistinct (xs ++ ys) → IsDistinct xs
IsDistinct-left [] ys d = tt
IsDistinct-left (x ∷ xs) ys d = (ground (arith, has-append x xs ys), IsDistinct-left xs ys d.1)

pub IsDistinct-right : (xs ys : List ℕ) → IsDistinct (xs ++ ys) → IsDistinct ys
IsDistinct-right [] ys d = d
IsDistinct-right (x ∷ xs) ys d = IsDistinct-right xs ys d.1

pub IsDistinct-apart :
    (a : ℕ) (xs ys : List ℕ) → IsDistinct (xs ++ ys) → has a xs ≡ true → has a ys ≡ false
IsDistinct-apart a [] ys d h = cc
IsDistinct-apart a (x ∷ xs) ys d h =
    ground (arith, has-append x xs ys, IsDistinct-apart a xs ys d.1)

-- A number may be taken out.
pub IsDistinct-remove :
    (t : ℕ) (xs ys : List ℕ) → IsDistinct (xs ++ (t ∷ ys)) → IsDistinct (xs ++ ys)
IsDistinct-remove t [] ys d = d.1
IsDistinct-remove t (x ∷ xs) ys d =
    (ground (arith, has-append x xs (t ∷ ys), has-append x xs ys), IsDistinct-remove t xs ys d.1)

pub IsDistinct-absent :
    (t : ℕ) (xs ys : List ℕ) → IsDistinct (xs ++ (t ∷ ys)) → has t (xs ++ ys) ≡ false
IsDistinct-absent t [] ys d = d.0
IsDistinct-absent t (x ∷ xs) ys d =
    ground (arith, has-append x xs (t ∷ ys), IsDistinct-absent t xs ys d.1)

-- The list without its first `t`.
abbrev pub without : ℕ → List ℕ → List ℕ
without t [] = []
without t (x ∷ xs) = if x == t then xs else x ∷ without t xs

pub without-absent : (t : ℕ) (xs : List ℕ) → has t xs ≡ false → without t xs ≡ xs
without-absent t [] h = refl
without-absent t (x ∷ xs) h = ground (arith, without-absent t xs)

pub without-append :
    (t : ℕ) (ks xs : List ℕ) → IsDistinct (ks ++ (t ∷ xs)) → without t (ks ++ (t ∷ xs)) ≡ ks ++ xs
without-append t [] xs d = ground arith
without-append t (k ∷ ks) xs d =
    ground (arith, without-append t ks xs d.1, has-append k ks (t ∷ xs))
