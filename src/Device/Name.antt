-- ===== src/Device/Name.antt =====
-- get_name_unit: what becomes of a driver's name with a unit number behind it.
use rtems_libbsdport.Prelude.{
  ℕ, zero, suc, ◌+◌, ◌-◌, ◌<◌, ◌≤◌, ◌≡◌, refl, ap, ◌∙◌, true, false, none, some, [], ◌∷◌, ◌++◌,
  arith, ◌==◌, leb,
}
use rtems_libbsdport.Prelude.Lists.{length, get_elem?, take, drop, length-append}
use rtems_libbsdport.Device.{
  Bytes, System, ok, isdigit, skip_digits, get_name_unit, name_parts, name_size,
}

abbrev pub AllDigits : Bytes → Type 0
AllDigits [] = Unit {0}
AllDigits (c ∷ cs) = (isdigit c ≡ true) × AllDigits cs

get_elem?-middle :
    (xs : Bytes) (c : ℕ) (ys : Bytes) → get_elem? (xs ++ (c ∷ ys)) (length xs) ≡ some c
get_elem?-middle [] c ys = refl
get_elem?-middle (x ∷ xs) c ys = get_elem?-middle xs c ys

take-middle :
    (xs : Bytes) (c : ℕ) (ys : Bytes) → take (suc (length xs)) (xs ++ (c ∷ ys)) ≡ xs ++ (c ∷ [])
take-middle [] c ys = refl
take-middle (x ∷ xs) c ys = ap (λ t. x ∷ t) (take-middle xs c ys)

drop-middle : (xs : Bytes) (c : ℕ) (ys : Bytes) → drop (length xs) (xs ++ (c ∷ ys)) ≡ c ∷ ys
drop-middle [] c ys = refl
drop-middle (x ∷ xs) c ys = drop-middle xs c ys

digit_at :
    (ds : Bytes) (m : ℕ)
    → AllDigits ds
    → m < length ds
    → (d : ℕ) × (get_elem? ds m ≡ some d) × (isdigit d ≡ true)
digit_at [] m a h = absurd (omega arith)
digit_at (d ∷ ds) zero a h = (d, refl, a.0)
digit_at (d ∷ ds) (suc m) a h = digit_at ds m a.1 (omega arith)

get_elem?-behind :
    (stem : Bytes) (c : ℕ) (ds : Bytes) (j m : ℕ)
    → j ≡ length stem + suc m
    → get_elem? (stem ++ (c ∷ ds)) j ≡ get_elem? ds m
get_elem?-behind [] c ds zero m e = absurd (omega arith)
get_elem?-behind [] c ds (suc j) m e = ap (get_elem? ds) (omega arith)
get_elem?-behind (x ∷ stem) c ds zero m e = absurd (omega arith)
get_elem?-behind (x ∷ stem) c ds (suc j) m e = get_elem?-behind stem c ds j m (omega arith)

-- The loop of get_name_unit stops behind the last character that is no digit.
skip_digits-stem :
    (stem : Bytes) (c : ℕ) (ds : Bytes) (m j : ℕ)
    → isdigit c ≡ false
    → AllDigits ds
    → j ≡ length stem + m
    → m ≤ length ds
    → skip_digits (stem ++ (c ∷ ds)) (suc j) ≡ suc (length stem)
unfolding skip_digits
skip_digits-stem stem c ds zero j h a e l =
    let e' : j ≡ length stem = omega arith in
    rw e' (rw (get_elem?-middle stem c ds, skip_digits, h))
skip_digits-stem stem c ds (suc m) zero h a e l = absurd (omega arith)
skip_digits-stem stem c ds (suc m) (suc j) h a e l =
    let (d, at, is) = digit_at ds m a l in
    rw (get_elem?-behind stem c ds (suc j) m e ∙ at, skip_digits)
      (rw is (skip_digits-stem stem c ds m j h a (omega arith) (omega arith)))

get_name_unit_lem :
    (sys : System) (stem : Bytes) (c : ℕ) (ds : Bytes)
    → get_name_unit sys (stem ++ (c ∷ ds))
      ≡ name_parts sys
          (stem ++ (c ∷ ds))
          (skip_digits (stem ++ (c ∷ ds)) (length (stem ++ (c ∷ ds))))
unfolding get_name_unit
get_name_unit_lem sys [] c ds = refl
get_name_unit_lem sys (x ∷ stem) c ds = refl

plus_suc : (n m : ℕ) → n + suc m ≡ suc (n + m)
plus_suc n m = omega arith

name_parts-stem :
    (sys : System) (stem : Bytes) (c : ℕ) (ds : Bytes)
    → length stem + 1 < name_size
    → sys.scan_int (c ∷ ds) ≡ none
    → name_parts sys (stem ++ (c ∷ ds)) (suc (length stem)) ≡ ok (stem ++ (c ∷ []), 0)
unfolding name_parts
name_parts-stem sys stem c ds l n =
    let fits : leb name_size (suc (length stem)) ≡ false = ground arith in
    let back : suc (length stem) - 1 ≡ length stem = omega arith in
    let positive : (suc (length stem) == 0) ≡ false = ground arith in
    rw (positive, fits, back, drop-middle stem c ds, n, take-middle stem c ds)

-- A name that ends in a unit number: a stem, one last character `c` that is no digit, and digits.
-- The number is read from `c` on. Where no number can be read there, as behind a letter, the unit
-- number is lost: the name asks for any unit.
pub unit_number_lost :
    (sys : System) (stem : Bytes) (c : ℕ) (ds : Bytes)
    → isdigit c ≡ false
    → AllDigits ds
    → length stem + 1 < name_size
    → sys.scan_int (c ∷ ds) ≡ none
    → get_name_unit sys (stem ++ (c ∷ ds)) ≡ ok (stem ++ (c ∷ []), 0)
unit_number_lost sys stem c ds h a l n =
    get_name_unit_lem sys stem c ds
    ∙ ap (name_parts sys (stem ++ (c ∷ ds))) (
        ap (skip_digits (stem ++ (c ∷ ds)))
          (length-append stem (c ∷ ds) ∙ plus_suc (length stem) (length ds))
        ∙ skip_digits-stem stem c ds (length ds) (length stem + length ds) h a refl (omega arith))
    ∙ name_parts-stem sys stem c ds l n
