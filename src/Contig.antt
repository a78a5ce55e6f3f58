-- ===== src/Contig.antt =====
-- bsd_eth_drivers/libbsdport/contigmalloc.c: aligned memory, with the block that malloc returned kept
-- in a word behind it. Addresses have 32 bits and pointers 4 bytes.
use native.Mathlib.Nat.{mod-add-div, mul-mod_right, mod-lt, mod-eq_of_lt}
use rtems_libbsdport.Prelude.{
  ℕ, ◌+◌, ◌-◌, ◌*◌, ◌/◌, ◌%◌, ◌^◌, ◌<◌, ◌≤◌, ◌≡◌, refl, false, ◌==◌, if◌then◌else◌, arith, eq→==,
}
use rtems_libbsdport.Prelude.Memory.{null, update}

abbrev pub address_mod : ℕ
address_mod = 2 ^ 32

-- The size that is asked of `rtems_bsdnet_malloc`.
abbrev pub asked : (size align : ℕ) → ℕ
asked size align = size + 4 + align - 1

-- contigmalloc: `malloc` is what `rtems_bsdnet_malloc` returns for a size, and `words` the words in
-- memory. Result: the address, or null, and the words after it.
unfoldable pub contigmalloc : (malloc : ℕ → ℕ) (words : ℕ → ℕ) (size align : ℕ) → ℕ × (ℕ → ℕ)
contigmalloc malloc words size align =
    let ptr = malloc (asked size align) in
    let tmp = (ptr + align - 1) % address_mod in
    let rval = tmp - tmp % align in
    if ptr == null then (null, words) else (rval, update words (rval + size) ptr)

-- contigfree: the address that it passes to `rtems_bsdnet_free`.
unfoldable pub contigfree : (words : ℕ → ℕ) (ptr size : ℕ) → ℕ
contigfree words ptr size = words ((ptr + size) % address_mod)

aligned_down : (t a : ℕ) → 0 < a → (t - t % a) % a ≡ 0
aligned_down t a h =
    let whole : t - t % a ≡ a * (t / a) = omega (arith, mod-add-div t a) in
    rw whole (mul-mod_right a (t / a))

remainder_lt : (t a : ℕ) → 0 < a → t % a < a
remainder_lt t a h = mod-lt t h

-- Where malloc serves the request with a block below the end of the address space, contigmalloc
-- returns an aligned address; the memory from there on, with the word behind it, is inside the
-- block; and contigfree gives the block back that malloc returned.
pub contigmalloc-contigfree :
    (malloc words : ℕ → ℕ) (size align : ℕ)
    → 0 < align
    → 0 < malloc (asked size align)
    → malloc (asked size align) + asked size align < address_mod
    → ((contigmalloc malloc words size align).0 % align ≡ 0)
      × (malloc (asked size align) ≤ (contigmalloc malloc words size align).0)
      × ((contigmalloc malloc words size align).0 + size + 4
          ≤ malloc (asked size align) + asked size align)
      × (contigfree
            (contigmalloc malloc words size align).1
            (contigmalloc malloc words size align).0
            size
          ≡ malloc (asked size align))
unfolding contigmalloc contigfree
contigmalloc-contigfree malloc words size align a p b =
    let ptr = malloc (asked size align) in
    let small : (ptr + align - 1) % address_mod ≡ ptr + align - 1 = omega arith in
    let nonnull : (ptr == null) ≡ false = ground arith in
    let r = remainder_lt (ptr + align - 1) align a in
    rw (nonnull, small)
      (
        aligned_down (ptr + align - 1) align a,
        omega arith,
        omega arith,
        rw
            (mod-eq_of_lt {n = ptr + align - 1 - (ptr + align - 1) % align + size} {m = address_mod}
              (omega arith))
            (rw (eq→== (ptr + align - 1 - (ptr + align - 1) % align + size) _ refl) refl),
      )
