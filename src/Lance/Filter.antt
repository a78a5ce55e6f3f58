-- ===== src/Lance/Filter.antt =====
-- lance_setladrf: the filter of multicast addresses, four words of sixteen bits.
use rtems_libbsdport.Prelude.{
  ℕ, zero, suc, not, ==→eq, ◌+◌, ◌/◌, ◌%◌, ◌^◌, ◌<◌, ◌≡◌, refl, true, false, ◌&&◌, ◌||◌, Bool, List,
  [], ◌∷◌, arith, ◌==◌, if◌then◌else◌, Bool-cases, inl, inr, ◌≢◌, ◌⊎◌,
}
use rtems_libbsdport.Prelude.Memory.{update}
use rtems_libbsdport.Prelude.Words.{is_set, set_bit}
use rtems_libbsdport.Lance.{Softc, Host}

-- The bit of the word that `LE_HTOLE16(1 << k)` has set.
abbrev pub le_bit : Host → Softc → ℕ → ℕ
le_bit h sc k = if h.is_big_endian && sc.le_bswap then (k + 8) % 16 else k

-- `af[crc >> 4] |= LE_HTOLE16(1 << (crc & 0xf))`, with the crc as the code for RTEMS has it: the first
-- shift stands in the call's line, the second below.
unfoldable pub add_multi : Host → Softc → (af : ℕ → ℕ) → List ℕ → ℕ → ℕ
add_multi h sc af enm_addrlo =
    let crc = h.ether_crc32_le enm_addrlo / 2 ^ 26 in
    let crc = crc / 2 ^ 26 in
    update af (crc / 16) (set_bit (af (crc / 16)) (le_bit h sc (crc % 16)))

unfoldable pub add_multis : Host → Softc → (af : ℕ → ℕ) → List (List ℕ) → ℕ → ℕ
unfolding add_multi
add_multis h sc af [] = af
add_multis h sc af (a ∷ rest) = add_multis h sc (add_multi h sc af a) rest

-- lance_setladrf
unfoldable pub lance_setladrf : Host → Softc → ℕ → ℕ
unfolding add_multis
lance_setladrf h sc =
    if sc.promisc || sc.le_allmulti then (λ w. 65535) else add_multis h sc (λ w. 0) sc.if_multiaddrs

-- Where the chip looks an address up: the upper six bits of the crc.
abbrev pub is_passed : Host → Softc → (af : ℕ → ℕ) → List ℕ → Bool
is_passed h sc af a =
    let crc = h.ether_crc32_le a / 2 ^ 26 in is_set (af (crc / 16)) (le_bit h sc (crc % 16))

-- The filter with no bit, or the one bit for crc 0.
IsBlind : Host → Softc → (af : ℕ → ℕ) → Type 0
IsBlind h sc af = (w : ℕ) → (af w ≡ 0) ⊎ ((w ≡ 0) × (af w ≡ 2 ^ le_bit h sc 0))

add_multi-IsBlind :
    (h : Host) (sc : Softc) (af : ℕ → ℕ) (a : List ℕ)
    → h.ether_crc32_le a < 2 ^ 32
    → IsBlind h sc af
    → IsBlind h sc (add_multi h sc af a)
unfolding IsBlind add_multi
add_multi-IsBlind h sc af a c b w =
    let e : h.ether_crc32_le a / 2 ^ 26 / 2 ^ 26 ≡ 0 = omega arith in
    elim (Bool-cases (h.is_big_endian && sc.le_bswap)) [
      | inl k ↦ rw (e, k) (let h₁ = rw k at (b w) in let h₂ = rw k at (b 0) in ground arith)
      | inr k ↦ rw (e, k) (let h₁ = rw k at (b w) in let h₂ = rw k at (b 0) in ground arith)
    ]

add_multis-IsBlind :
    (h : Host) (sc : Softc) (af : ℕ → ℕ) (multis : List (List ℕ))
    → ((a : List ℕ) → h.ether_crc32_le a < 2 ^ 32)
    → IsBlind h sc af
    → IsBlind h sc (add_multis h sc af multis)
unfolding add_multis
add_multis-IsBlind h sc af [] c b = b
add_multis-IsBlind h sc af (a ∷ rest) c b =
    add_multis-IsBlind h sc (add_multi h sc af a) rest c (add_multi-IsBlind h sc af a (c a) b)

setladrf-IsBlind :
    (h : Host) (sc : Softc)
    → ((a : List ℕ) → h.ether_crc32_le a < 2 ^ 32)
    → sc.promisc ≡ false
    → sc.le_allmulti ≡ false
    → IsBlind h sc (lance_setladrf h sc)
unfolding lance_setladrf IsBlind
setladrf-IsBlind h sc c p m =
    let e : (sc.promisc || sc.le_allmulti) ≡ false = ground arith in
    let pick : (b : Bool)
        → b ≡ false
        → IsBlind h sc (if b then (λ w. 65535) else add_multis h sc (λ w. 0) sc.if_multiaddrs) =
      λ b k. rw k (add_multis-IsBlind h sc (λ w. 0) sc.if_multiaddrs c (λ w. inl refl)) in
    pick (sc.promisc || sc.le_allmulti) e

-- A test of the numbers below `n`, one by one.
every : (n : ℕ) → (ℕ → Bool) → Bool
every zero p = true
every (suc n) p = p n && every n p

every-at : (n k : ℕ) (p : ℕ → Bool) → every n p ≡ true → k < n → p k ≡ true
unfolding every
every-at zero k p e l = absurd (omega arith)
every-at (suc n) k p e l = elim (Bool-cases (k == n)) [
  | inl h ↦ rw (==→eq k n h) (ground arith)
  | inr h ↦ every-at n k p (ground arith) (ground arith)
]

other_bit :
    (b : Bool) (k : ℕ)
    → k < 16
    → k ≢ 0
    → is_set (2 ^ (if b then 8 else 0)) (if b then (k + 8) % 16 else k) ≡ false
unfolding every
other_bit true k l n =
    let h = every-at 16 k (λ k. (k == 0) || not (is_set 256 ((k + 8) % 16))) refl l in ground arith
other_bit false k l n =
    let h = every-at 16 k (λ k. (k == 0) || not (is_set 1 k)) refl l in ground arith

no_bit : (b : Bool) (k : ℕ) → k < 16 → is_set 0 (if b then (k + 8) % 16 else k) ≡ false
unfolding every
no_bit true k l = let h = every-at 16 k (λ k. not (is_set 0 ((k + 8) % 16))) refl l in ground arith
no_bit false k l = let h = every-at 16 k (λ k. not (is_set 0 k)) refl l in ground arith

-- With a crc of 32 bits, and without the promiscuous flag or the one for all multicasts, the filter
-- that lance_setladrf sets passes no address whose crc has an upper bit set, also none of the
-- interface's own multicast addresses: the crc is shifted twice.
pub setladrf-is_passed :
    (h : Host) (sc : Softc) (a : List ℕ)
    → ((a : List ℕ) → h.ether_crc32_le a < 2 ^ 32)
    → sc.promisc ≡ false
    → sc.le_allmulti ≡ false
    → h.ether_crc32_le a / 2 ^ 26 ≢ 0
    → is_passed h sc (lance_setladrf h sc) a ≡ false
unfolding IsBlind
setladrf-is_passed h sc a c p m n =
    let bits = h.ether_crc32_le a / 2 ^ 26 in
    let swaps = h.is_big_endian && sc.le_bswap in
    elim (setladrf-IsBlind h sc c p m (bits / 16)) [
      | inl z ↦ rw z (no_bit swaps (bits % 16) (omega arith))
      | inr (w, z) ↦ rw z (other_bit swaps (bits % 16) (omega arith) (λ e. n (omega arith)))
    ]
