-- ===== src/Em/Multicast.antt =====
-- e1000_mac.c: what the receive addresses and the table hold behind an update of the multicast list.
use rtems_libbsdport.Prelude.{
  ℕ, zero, suc, ◌+◌, ◌-◌, ◌*◌, ◌/◌, ◌%◌, ◌^◌, ◌<◌, ◌≤◌, ◌≡◌, refl, ap, ◌∙◌, inl, inr, Bool, false,
  ◌||◌, ◌==◌, if◌then◌else◌, Option, none, some, List, [], ◌∷◌, map, arith, Bool-cases,
}
use rtems_libbsdport.Prelude.Lists.{has, get_elem?, drop}
use native.Mathlib.Nat.{zero-div}
use rtems_libbsdport.Prelude.Words.{is_set, set_bit}
use rtems_libbsdport.Prelude.Bits.{is_set-set_bit}
use rtems_libbsdport.Em.{Reg, Op, Log, Board, flush}
use rtems_libbsdport.Em.Filter.{
  Addr, Mac, rar_low, rar_high, rar_set, rar_clear, hash_mc_addr, mta_set, rar_loop, clear_mta,
  load_mta, mc_addr_list_update,
}

abbrev over_ra : Op → ℕ → Option ℕ → Option ℕ
over_ra (Op.wrote (Reg.ra j) v) i old = if i == j then some v else old
over_ra op i old = old

abbrev over_mta : Op → ℕ → Option ℕ → Option ℕ
over_mta (Op.wrote (Reg.mta j) v) i old = if i == j then some v else old
over_mta op i old = old

-- The registers, as they were last written.
abbrev pub ra_of : Log → ℕ → Option ℕ
ra_of [] i = none
ra_of (op ∷ log) i = over_ra op i (ra_of log i)

abbrev pub mta_of : Log → ℕ → Option ℕ
mta_of [] i = none
mta_of (op ∷ log) i = over_mta op i (mta_of log i)

-- The table reads as it was written.
abbrev pub IsTable : Board → Type 0
IsTable b = (log : Log) (i v : ℕ) → mta_of log i ≡ some v → b log (Reg.mta i) ≡ v

-- The bit `h` of the table.
abbrev pub holds : Option ℕ → (k : ℕ) → Bool
holds none k = false
holds (some v) k = is_set v k

abbrev pub bit_of : Log → (h : ℕ) → Bool
bit_of log h = holds (mta_of log (h / 32)) (h % 32)

holds-set_bit :
    (v g h : ℕ) (old : Option ℕ)
    → (g / 32 ≡ h / 32 → old ≡ some v)
    → holds (if g / 32 == h / 32 then some (set_bit v (h % 32)) else old) (g % 32)
      ≡ ((g == h) || holds old (g % 32))
holds-set_bit v g h old was = elim (Bool-cases (g / 32 == h / 32)) [
  | inl t ↦
      let p = was (ground arith) in
      let u : (g % 32 == h % 32) ≡ (g == h) = ground arith in
      rw (t, p, is_set-set_bit v (h % 32) (g % 32), u) (ground arith)
  | inr t ↦ let u : (g == h) ≡ false = ground arith in rw (t, u) refl
]

zero_bit : (k : ℕ) → is_set 0 k ≡ false
zero_bit k = let e : 0 / 2 ^ k ≡ 0 = zero-div (2 ^ k) in rw e refl

-- What `n` pairs from `i` on have: an address each, or 0 where there is none.
abbrev pub pair_low : Option Addr → ℕ
pair_low none = 0
pair_low (some a) = rar_low a

abbrev pub pair_high : Mac → Option Addr → ℕ
pair_high mac none = 0
pair_high mac (some a) = rar_high mac a

module _ (b : Board) (mac : Mac) where
  pub record HasRars (n i : ℕ) (addrs : List Addr) (log log' : Log) : Type 0 where
    pub low : (k : ℕ) → k < n → ra_of log' ((i + k) * 2) ≡ some (pair_low (get_elem? addrs k))
    pub high :
        (k : ℕ) → k < n → ra_of log' ((i + k) * 2 + 1) ≡ some (pair_high mac (get_elem? addrs k))
    pub below : (j : ℕ) → j < i * 2 → ra_of log' j ≡ ra_of log j

  -- One pair more in front.
  module _ (n i : ℕ) (addrs rest : List Addr) (log log₀ log' : Log)
      (next : (k : ℕ) → get_elem? addrs (suc k) ≡ get_elem? rest k)
      (low₀ : ra_of log₀ (i * 2) ≡ some (pair_low (get_elem? addrs 0)))
      (high₀ : ra_of log₀ (i * 2 + 1) ≡ some (pair_high mac (get_elem? addrs 0)))
      (below₀ : (j : ℕ) → j < i * 2 → ra_of log₀ j ≡ ra_of log j)
      (r : HasRars n (suc i) rest log₀ log') where
    extend-low :
        (k : ℕ) → k < suc n → ra_of log' ((i + k) * 2) ≡ some (pair_low (get_elem? addrs k))
    extend-low zero l =
        let e : (i + 0) * 2 ≡ i * 2 = omega arith in rw e (r.below (i * 2) (omega arith) ∙ low₀)
    extend-low (suc k) l =
        let e : (i + suc k) * 2 ≡ (suc i + k) * 2 = omega arith in
        rw (e, next k) (r.low k (omega arith))

    extend-high :
        (k : ℕ)
        → k < suc n
        → ra_of log' ((i + k) * 2 + 1) ≡ some (pair_high mac (get_elem? addrs k))
    extend-high zero l =
        let e : (i + 0) * 2 + 1 ≡ i * 2 + 1 = omega arith in
        rw e (r.below (i * 2 + 1) (omega arith) ∙ high₀)
    extend-high (suc k) l =
        let e : (i + suc k) * 2 + 1 ≡ (suc i + k) * 2 + 1 = omega arith in
        rw (e, next k) (r.high k (omega arith))

    extend-HasRars : HasRars (suc n) i addrs log log'
    extend-HasRars = record {
      low = extend-low;
      high = extend-high;
      below = λ j l. r.below j (omega arith) ∙ below₀ j l;
    }

  drop-nil : (n : ℕ) → drop {A = Addr} n [] ≡ []
  drop-nil zero = refl
  drop-nil (suc n) = refl

  rar_loop-HasRars :
      (n i : ℕ) (addrs : List Addr) (log : Log)
      → ((rar_loop mac n i addrs log).0 ≡ drop n addrs)
        × HasRars n i addrs log (rar_loop mac n i addrs log).1
  unfolding rar_loop rar_set rar_clear
  rar_loop-HasRars zero i addrs log = (
    refl,
    record {
      low = λ k l. absurd (omega arith);
      high = λ k l. absurd (omega arith);
      below = λ j l. refl;
    },
  )
  rar_loop-HasRars (suc n) i [] log =
      let (e, r) = rar_loop-HasRars n (suc i) [] (rar_clear i log) in
      (
        e ∙ drop-nil n,
        extend-HasRars n i [] [] log (rar_clear i log) _ (λ k. refl) (ground arith) (ground arith)
            (λ j l. ground arith) r,
      )
  rar_loop-HasRars (suc n) i (a ∷ addrs) log =
      let (e, r) = rar_loop-HasRars n (suc i) addrs (rar_set mac a i log) in
      (
        e,
        extend-HasRars n i (a ∷ addrs) addrs log (rar_set mac a i log) _ (λ k. refl) (ground arith)
            (ground arith) (λ j l. ground arith) r,
      )

  rar_loop-mta :
      (n i j : ℕ) (addrs : List Addr) (log : Log)
      → mta_of (rar_loop mac n i addrs log).1 j ≡ mta_of log j
  unfolding rar_loop rar_set rar_clear
  rar_loop-mta zero i j addrs log = refl
  rar_loop-mta (suc n) i j [] log = rar_loop-mta n (suc i) j [] (rar_clear i log)
  rar_loop-mta (suc n) i j (a ∷ addrs) log = rar_loop-mta n (suc i) j addrs (rar_set mac a i log)

  clear_mta-kept : (n i j : ℕ) (log : Log) → j < i → mta_of (clear_mta n i log) j ≡ mta_of log j
  unfolding clear_mta
  clear_mta-kept zero i j log l = refl
  clear_mta-kept (suc n) i j log l =
      let t : (j == i) ≡ false = ground arith in
      clear_mta-kept n (suc i) j (flush (Op.wrote (Reg.mta i) 0 ∷ log)) (omega arith) ∙ rw t refl

  clear_mta-zero :
      (n i j : ℕ) (log : Log) → i ≤ j → j < i + n → mta_of (clear_mta n i log) j ≡ some 0
  unfolding clear_mta
  clear_mta-zero zero i j log l m = absurd (omega arith)
  clear_mta-zero (suc n) i j log l m =
      let log₁ : Log = flush (Op.wrote (Reg.mta i) 0 ∷ log) in
      elim (Bool-cases (j == i)) [
        | inl t ↦ clear_mta-kept n (suc i) j log₁ (ground arith) ∙ rw t refl
        | inr t ↦ clear_mta-zero n (suc i) j log₁ (ground arith) (ground arith)
      ]

  clear_mta-ra : (n i j : ℕ) (log : Log) → ra_of (clear_mta n i log) j ≡ ra_of log j
  unfolding clear_mta
  clear_mta-ra zero i j log = refl
  clear_mta-ra (suc n) i j log = clear_mta-ra n (suc i) j (flush (Op.wrote (Reg.mta i) 0 ∷ log))

  -- The registers of the table have been written.
  abbrev IsLoaded : Log → Type 0
  IsLoaded log = (i : ℕ) → i < mac.mta_reg_count → (v : ℕ) × (mta_of log i ≡ some v)

  module _ (table : IsTable b) (hash : Addr → ℕ)
      (hashed : (a : Addr) → hash_mc_addr mac a ≡ some (hash a))
      (small : (a : Addr) → hash a < mac.mta_reg_count * 32) where
    mta_set-of :
        (log : Log) (h : ℕ)
        → h < mac.mta_reg_count * 32
        → IsLoaded log
        → IsLoaded (mta_set b mac h log)
          × ((g : ℕ) → bit_of (mta_set b mac h log) g ≡ ((g == h) || bit_of log g))
          × ((j : ℕ) → ra_of (mta_set b mac h log) j ≡ ra_of log j)
    unfolding mta_set
    mta_set-of log h l loaded =
        let e : h / 32 % mac.mta_reg_count ≡ h / 32 = grind arith in
        let (v, p) = loaded (h / 32) (omega arith) in
        let q : b log (Reg.mta (h / 32)) ≡ v = table log (h / 32) v p in
        rw (e, q)
          (
            (λ i m. elim (Bool-cases (i == h / 32)) [
              | inl t ↦ (set_bit v (h % 32), rw t refl)
              | inr t ↦ let (v', p') = loaded i m in (v', rw t p')
            ]),
            (λ g. holds-set_bit v g h (mta_of log (g / 32)) (λ same. ap (mta_of log) same ∙ p)),
            λ j. refl,
          )

    load_mta-of :
        (addrs : List Addr) (log : Log)
        → IsLoaded log
        → (log' : Log) × (load_mta b mac addrs log ≡ some log')
          × ((g : ℕ) → bit_of log' g ≡ (has g (map hash addrs) || bit_of log g))
          × ((j : ℕ) → ra_of log' j ≡ ra_of log j)
    unfolding load_mta
    load_mta-of [] log loaded = (log, refl, λ g. refl, λ j. refl)
    load_mta-of (a ∷ addrs) log loaded =
        let (loaded₁, bits, ras) = mta_set-of log (hash a) (small a) loaded in
        let (log', e, bits', ras') = load_mta-of addrs (mta_set b mac (hash a) log) loaded₁ in
        (
          log',
          rw (hashed a, load_mta) e,
          (λ g. let p = bits g in let q = bits' g in ground arith),
          λ j. ras' j ∙ ras j,
        )

    -- Where the table reads as it was written and every address has a hash value that lies in it,
    -- e1000_mc_addr_list_update_generic gives an exact filter, a pair of registers, to each of the first
    -- addresses, as many as there are pairs from `rar_used_count` on, and clears the pairs that are left
    -- over; the bits of the hash table are those of the other addresses' hash values, and no others.
    -- The registers below are as before.
    pub update-passes :
        (addrs : List Addr) (rar_used_count rar_count : ℕ) (log : Log)
        → (log' : Log) × (mc_addr_list_update b mac addrs rar_used_count rar_count log ≡ some log')
          × HasRars (rar_count - rar_used_count) rar_used_count addrs log log'
          × ((g : ℕ)
              → g < mac.mta_reg_count * 32
              → bit_of log' g ≡ has g (map hash (drop (rar_count - rar_used_count) addrs)))
    unfolding mc_addr_list_update
    update-passes addrs used count log =
        let n = count - used in
        let (rest, log₁) = rar_loop mac n used addrs log in
        let (e, rars) = rar_loop-HasRars n used addrs log in
        let log₂ = clear_mta mac.mta_reg_count 0 log₁ in
        let zeros : (j : ℕ) → j < mac.mta_reg_count → mta_of log₂ j ≡ some 0 =
          λ j l. clear_mta-zero mac.mta_reg_count 0 j log₁ (omega arith) (omega arith) in
        let (log₃, f, bits, ras) = load_mta-of rest log₂ (λ i l. (0, zeros i l)) in
        let ra : (j : ℕ) → ra_of log₃ j ≡ ra_of log₁ j =
          λ j. ras j ∙ clear_mta-ra mac.mta_reg_count 0 j log₁ in
        (
          log₃,
          f,
          record {
            low = λ k l. ra ((used + k) * 2) ∙ rars.low k l;
            high = λ k l. ra ((used + k) * 2 + 1) ∙ rars.high k l;
            below = λ j l. ra j ∙ rars.below j l;
          },
          λ g l.
              let z = zeros (g / 32) (omega arith) in
              let k = zero_bit (g % 32) in bits g ∙ rw (e, z, k) (ground arith),
        )
