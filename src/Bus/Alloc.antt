-- ===== src/Bus/Alloc.antt =====
-- What bus_alloc_resources of sysbus.c promises its caller: the resources, ENXIO or a panic.
use rtems_libbsdport.Prelude.{
  ℕ, ◌≡◌, refl, subst, ap, ◌∙◌, ◌⊎◌, Bool, false, not, ◌&&◌, ◌||◌, List, [], ◌∷◌, arith, ◌==◌,
  if◌then◌else◌, Bool-cases, inl, inr,
}
use rtems_libbsdport.Prelude.Lists.{length}
use rtems_libbsdport.Prelude.Words.{is_set}
use rtems_libbsdport.Prelude.Memory.{null}
use rtems_libbsdport.Bus.Resource.{
  Config, Spec, Run, ok, panic, Allocated, all_done, enxio, ioport, memory, irq, optional_bit,
  bus_alloc_resource_any, bus_release_resources, nulls, reverse_onto, alloc_loop,
  bus_alloc_resources,
}

-- Entries against their specifications: each is the resource that the bus has for its
-- specification, and one that is not optional is not null.
abbrev pub IsServed : Config → List Spec → List ℕ → Type 0
IsServed c [] [] = Unit {0}
IsServed c [] (r ∷ rs) = ⊥
IsServed c (x ∷ xs) [] = ⊥
IsServed c (x ∷ xs) (r ∷ rs) =
    (bus_alloc_resource_any c x.type x.rid ≡ ok r)
    × (((r == null) && not (is_set x.flags optional_bit)) ≡ false)
    × IsServed c xs rs

-- The bus does not have a resource that is not optional.
abbrev pub IsRefused : Config → List Spec → Type 0
IsRefused c [] = ⊥
IsRefused c (x ∷ xs) =
    ((bus_alloc_resource_any c x.type x.rid ≡ ok null) × (is_set x.flags optional_bit ≡ false))
    ⊎ IsRefused c xs

abbrev pub AllNull : List ℕ → Type 0
AllNull [] = Unit {0}
AllNull (r ∷ rs) = (r ≡ null) × AllNull rs

-- What a result of bus_alloc_resources promises.
abbrev pub Promise : Config → List Spec → Allocated → Type 0
Promise c specs (all_done rs) = IsServed c specs rs
Promise c specs (enxio rs) = AllNull rs × (length rs ≡ length specs) × IsRefused c specs

release-AllNull : (rs : List ℕ) → AllNull (bus_release_resources rs)
unfolding bus_release_resources
release-AllNull [] = tt
release-AllNull (r ∷ rs) = (ground arith, release-AllNull rs)

abbrev onto : List Spec → List Spec → List Spec
onto [] ys = ys
onto (x ∷ xs) ys = onto xs (x ∷ ys)

IsServed-onto :
    (c : Config) (before xs : List Spec) (done rs : List ℕ)
    → IsServed c before done
    → IsServed c xs rs
    → IsServed c (onto before xs) (reverse_onto done rs)
IsServed-onto c [] xs [] rs h k = k
IsServed-onto c [] xs (d ∷ done) rs h k = absurd h
IsServed-onto c (b ∷ before) xs [] rs h k = absurd h
IsServed-onto c (b ∷ before) xs (d ∷ done) rs (g, s, h) k =
    IsServed-onto c before (b ∷ xs) done (d ∷ rs) h (g, s, k)

IsRefused-onto :
    (c : Config) (before xs : List Spec) → IsRefused c xs → IsRefused c (onto before xs)
IsRefused-onto c [] xs h = h
IsRefused-onto c (b ∷ before) xs h = IsRefused-onto c before (b ∷ xs) (inr h)

length-released : (rs : List ℕ) → length (bus_release_resources rs) ≡ length rs
unfolding bus_release_resources
length-released [] = refl
length-released (r ∷ rs) = omega (arith, length-released rs)

length-nulls : (xs : List Spec) → length (nulls xs) ≡ length xs
length-nulls [] = refl
length-nulls (x ∷ xs) = omega (arith, length-nulls xs)

-- As many entries as specifications, while the entries before this one are served.
length-onto :
    (c : Config) (before xs : List Spec) (done rs : List ℕ)
    → IsServed c before done
    → length rs ≡ length xs
    → length (reverse_onto done rs) ≡ length (onto before xs)
length-onto c [] xs [] rs h k = k
length-onto c [] xs (d ∷ done) rs h k = absurd h
length-onto c (b ∷ before) xs [] rs h k = absurd h
length-onto c (b ∷ before) xs (d ∷ done) rs (g, s, h) k =
    length-onto c before (b ∷ xs) done (d ∷ rs) h (omega arith)

alloc_loop-Promise :
    (c : Config) (before xs : List Spec) (done : List ℕ) (a : Allocated)
    → IsServed c before done
    → alloc_loop c done xs ≡ ok a
    → Promise c (onto before xs) a
unfolding alloc_loop
alloc_loop-Promise c before [] done a h e =
    let same : all_done (reverse_onto done []) ≡ a = cc in
    subst (Promise c (onto before [])) same (IsServed-onto c before [] done [] h tt)
alloc_loop-Promise c before (x ∷ xs) done a h e =
    after (λ r b g k. alloc_loop-Promise c (x ∷ before) xs (r ∷ done) a (b, g, h) k)
      (bus_alloc_resource_any c x.type x.rid) refl e
  where
    short : ℕ → Bool
    short r = (r == null) && not (is_set x.flags optional_bit)

    after :
        ((r : ℕ)
          → bus_alloc_resource_any c x.type x.rid ≡ ok r
          → short r ≡ false
          → alloc_loop c (r ∷ done) xs ≡ ok a
          → Promise c (onto before (x ∷ xs)) a)
        → (r : Run ℕ) → bus_alloc_resource_any c x.type x.rid ≡ r
        → (elim r [
          | panic ↦ panic
          | ok r ↦
              let rest = alloc_loop c (r ∷ done) xs in
              if short r
              then ok (enxio (bus_release_resources (reverse_onto done (r ∷ nulls xs))))
              else rest
        ])
          ≡ ok a
        → Promise c (onto before (x ∷ xs)) a
    after next panic b e = cc
    after next (ok r) b e = elim (Bool-cases (short r)) [
      | inl bad ↦
          let same : enxio (bus_release_resources (reverse_onto done (r ∷ nulls xs))) ≡ a =
            ground arith in
          let absent : bus_alloc_resource_any c x.type x.rid ≡ ok null = b ∙ ap ok (ground arith) in
          subst (Promise c (onto before (x ∷ xs))) same (
            release-AllNull (reverse_onto done (r ∷ nulls xs)),
            length-released (reverse_onto done (r ∷ nulls xs))
                ∙ length-onto c before (x ∷ xs) done (r ∷ nulls xs) h
                    (omega (arith, length-nulls xs)),
            IsRefused-onto c before (x ∷ xs) (inl (absent, ground arith)),
          )
      | inr good ↦ next r b good (ground arith)
    ]

-- An entry asks for a type that is none of the three.
abbrev pub IsUnknown : List Spec → Type 0
IsUnknown [] = ⊥
IsUnknown (x ∷ xs) =
    ((((x.type == ioport) || (x.type == memory)) || (x.type == irq)) ≡ false) ⊎ IsUnknown xs

any-panic :
    (c : Config) (type rid : ℕ)
    → bus_alloc_resource_any c type rid ≡ panic
    → (((type == ioport) || (type == memory)) || (type == irq)) ≡ false
unfolding bus_alloc_resource_any
any-panic c type rid e = ground arith

alloc_loop-panic :
    (c : Config) (done : List ℕ) (xs : List Spec) → alloc_loop c done xs ≡ panic → IsUnknown xs
unfolding alloc_loop
alloc_loop-panic c done [] e = absurd cc
alloc_loop-panic c done (x ∷ xs) e =
    after (λ r f. alloc_loop-panic c (r ∷ done) xs f) (bus_alloc_resource_any c x.type x.rid) refl e
  where
    after :
        ((r : ℕ) → alloc_loop c (r ∷ done) xs ≡ panic → IsUnknown xs)
        → (r : Run ℕ) → bus_alloc_resource_any c x.type x.rid ≡ r
        → (elim r [
          | panic ↦ panic
          | ok r ↦
              let rest = alloc_loop c (r ∷ done) xs in
              if (r == null) && not (is_set x.flags optional_bit)
              then ok (enxio (bus_release_resources (reverse_onto done (r ∷ nulls xs))))
              else rest
        ])
          ≡ panic
        → IsUnknown (x ∷ xs)
    after next panic b e = inl (any-panic c x.type x.rid b)
    after next (ok r) b e = elim (Bool-cases ((r == null) && not (is_set x.flags optional_bit))) [
      | inl bad ↦ absurd (ground arith)
      | inr good ↦ inr (next r (ground arith))
    ]

-- bus_alloc_resources succeeds with the resource of the bus in each entry, null only where the
-- resource is optional; or it fails with ENXIO, and then the bus does not have one of the resources
-- that are not optional, and no entry of the caller's array is left set; or it panics, and then an
-- entry asks for a type that is not a port, memory or an interrupt.
pub alloc_resources-Promise :
    (c : Config) (specs : List Spec)
    → ((a : Allocated) × (bus_alloc_resources c specs ≡ ok a) × Promise c specs a)
      ⊎ ((bus_alloc_resources c specs ≡ panic) × IsUnknown specs)
unfolding bus_alloc_resources
alloc_resources-Promise c specs = cases (alloc_loop c [] specs) refl
  where
    cases :
        (r : Run Allocated)
        → alloc_loop c [] specs ≡ r
        → ((a : Allocated) × (alloc_loop c [] specs ≡ ok a) × Promise c specs a)
          ⊎ ((alloc_loop c [] specs ≡ panic) × IsUnknown specs)
    cases (ok a) e = inl (a, e, alloc_loop-Promise c [] specs [] a tt e)
    cases panic e = inr (e, alloc_loop-panic c [] specs e)
