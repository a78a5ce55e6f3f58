-- ===== src/Prelude/Memory.antt =====
-- A field of a struct, as a function of the struct's address.
use Prim.Native.Nat.{ℕ}
use rtems_libbsdport.Prelude.Tests.{◌==◌, if◌then◌else◌}

abbrev pub null : ℕ
null = 0

-- The field after the assignment `a->field = v`.
abbrev pub update {ℓ} : {A : Type ℓ} → (ℕ → A) → ℕ → A → ℕ → A
update f a v b = if b == a then v else f b
