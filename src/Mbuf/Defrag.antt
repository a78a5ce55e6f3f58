-- ===== src/Mbuf/Defrag.antt =====
-- m_defrag: which packets it copies, and that the copy has the packet's bytes.
use rtems_libbsdport.Prelude.{
  ℕ, zero, suc, ◌+◌, ◌-◌, ◌^◌, ◌<◌, ◌≤◌, ◌≡◌, refl, sym, subst, ap, ltb→lt, ◌∙◌, Bool, true, false,
  [], ◌∷◌, ◌++◌, ltb, ◌==◌, if◌then◌else◌, Bool-cases, inl, inr, arith,
}
use mathlib.Core.List.{append-nil}
use rtems_libbsdport.Prelude.Lists.{length, take, drop, length-append}
use rtems_libbsdport.Mbuf.{
  Bytes, Chain, System, Result, nospace, defragged, m_length, length_from, m_getcl, has_buffer,
  defrag_loop, m_defrag,
}

-- All bytes of a chain, in order.
abbrev pub flat : Chain → Bytes
flat [] = []
flat (m ∷ ms) = m ++ flat ms

-- What the code relies on: m_copydata copies the bytes from an offset on, and m_cat puts a buffer's
-- bytes behind those of the chain, in the last buffer or in one of its own. A small buffer
-- holds less than a cluster.
pub record IsSystem (sys : System) : Type 0 where
  pub copies :
      (ms : Chain) (off len : ℕ) → sys.m_copydata ms off len ≡ take len (drop off (flat ms))
  pub appends : (ms : Chain) (m : Bytes) → flat (sys.m_cat ms m) ≡ flat ms ++ m
  pub clusters : (0 < sys.mlen) × (sys.mlen < sys.mclbytes)

plus_left : (p l : ℕ) → suc p + l ≡ suc (p + l)
plus_left p l = omega arith

take-take-drop : (p l : ℕ) (d : Bytes) → take p d ++ take l (drop p d) ≡ take (p + l) d
take-take-drop zero l d = ap (λ n. take n d) (omega arith)
take-take-drop (suc p) l [] = nothing l ∙ ap (λ n. take n []) (sym (plus_left p l))
  where
    nothing : (l : ℕ) → take {A = ℕ} l [] ≡ take (suc (p + l)) []
    nothing zero = refl
    nothing (suc l) = refl
take-take-drop (suc p) l (x ∷ d) =
    ap (λ t. x ∷ t) (take-take-drop p l d) ∙ ap (λ n. take n (x ∷ d)) (sym (plus_left p l))

take-all : (d : Bytes) (n : ℕ) → length d ≤ n → take n d ≡ d
take-all [] zero h = refl
take-all [] (suc n) h = refl
take-all (x ∷ d) zero h = absurd (omega arith)
take-all (x ∷ d) (suc n) h = ap (λ t. x ∷ t) (take-all d n (omega arith))

length_from_lem :
    (len : ℕ) (ms : Chain)
    → len + length (flat ms) < 2 ^ 32
    → length_from len ms ≡ len + length (flat ms)
unfolding length_from
length_from_lem len [] h = omega arith
length_from_lem len (m ∷ ms) h =
    ground (arith, length-append m (flat ms), length_from_lem (len + length m) ms)

-- m_length is the number of bytes of the chain, if that is below 2 ^ 32.
pub m_length_lem : (ms : Chain) → length (flat ms) < 2 ^ 32 → m_length ms ≡ length (flat ms)
unfolding m_length
m_length_lem ms h = length_from_lem 0 ms (omega arith) ∙ omega arith

-- The bytes of the next turn.
abbrev pub turn : System → (total progress : ℕ) → ℕ
turn sys total progress =
    if ltb sys.mclbytes (total - progress) then sys.mclbytes else total - progress

plus_zero : (n : ℕ) → n ≡ 0 + n
plus_zero n = omega arith

module _ (sys : System) (e : IsSystem sys) (ms : Chain) (total : ℕ)
    (t : total ≡ length (flat ms)) where
  done :
      (fuel progress : ℕ) (final : Chain)
      → total ≤ progress
      → defrag_loop sys ms total (suc fuel) progress final ≡ defragged final
  unfolding defrag_loop
  done fuel progress final h = ground arith

  first :
      (fuel : ℕ) (final : Chain)
      → 0 < total
      → defrag_loop sys ms total (suc fuel) 0 final
        ≡ defrag_loop sys ms total fuel
            (0 + turn sys total 0)
            (sys.m_copydata ms 0 (turn sys total 0) ∷ [])
  unfolding defrag_loop has_buffer
  first fuel final h = ground arith

  next :
      (fuel progress : ℕ) (final : Chain)
      → 0 < progress
      → progress < total
      → defrag_loop sys ms total (suc fuel) progress final ≡ (
          if has_buffer sys progress (turn sys total progress)
          then defrag_loop sys ms total fuel
              (progress + turn sys total progress)
              (sys.m_cat final (sys.m_copydata ms progress (turn sys total progress)))
          else nospace)
  unfolding defrag_loop
  next fuel progress final h k = ground arith

  next_with :
      (fuel progress : ℕ) (final : Chain) (v : Bool)
      → 0 < progress
      → progress < total
      → has_buffer sys progress (turn sys total progress) ≡ v
      → defrag_loop sys ms total (suc fuel) progress final ≡ (
          if v
          then defrag_loop sys ms total fuel
              (progress + turn sys total progress)
              (sys.m_cat final (sys.m_copydata ms progress (turn sys total progress)))
          else nospace)
  next_with fuel progress final v h k b =
      next fuel progress final h k
      ∙ ap
          (λ x.
            if x
            then defrag_loop sys ms total fuel (progress + turn sys total progress)
                (sys.m_cat final (sys.m_copydata ms progress (turn sys total progress)))
            else nospace)
          b

  no_fuel :
      (progress : ℕ) (final c : Chain)
      → defrag_loop sys ms total zero progress final ≡ defragged c
      → flat c ≡ flat ms
  unfolding defrag_loop
  no_fuel progress final c r = cc

  copied : (p l : ℕ) → flat (sys.m_copydata ms p l ∷ []) ≡ take l (drop p (flat ms))
  copied p l = append-nil _ ∙ e.copies ms p l

  ended :
      (fuel progress : ℕ) (final c : Chain)
      → total ≤ progress
      → flat final ≡ take progress (flat ms)
      → defrag_loop sys ms total (suc fuel) progress final ≡ defragged c
      → flat c ≡ flat ms
  ended fuel progress final c h f r =
      let both : defragged final ≡ defragged c = sym (done fuel progress final h) ∙ r in
      let same : final ≡ c = cc in
      subst (λ x. flat x ≡ flat ms) same (f ∙ take-all (flat ms) progress (omega (arith, t)))

  loop-flat :
      (fuel progress : ℕ) (final c : Chain)
      → flat final ≡ take progress (flat ms)
      → defrag_loop sys ms total fuel progress final ≡ defragged c
      → flat c ≡ flat ms
  loop-flat zero progress final c h r = no_fuel progress final c r
  loop-flat (suc fuel) zero final c h r = elim (Bool-cases (ltb 0 total)) [
    | inl more ↦
        loop-flat fuel (0 + turn sys total 0) _ c
          (copied 0 (turn sys total 0) ∙ ap (λ n. take n (flat ms)) (plus_zero (turn sys total 0)))
          (sym (first fuel final (ltb→lt _ _ more)) ∙ r)
    | inr less ↦ ended fuel 0 final c (ground arith) h r
  ]
  loop-flat (suc fuel) (suc p) final c h r = elim (Bool-cases (ltb (suc p) total)) [
    | inl more ↦ elim (Bool-cases (has_buffer sys (suc p) (turn sys total (suc p)))) [
      | inl got ↦
          loop-flat fuel (suc p + turn sys total (suc p)) _ c
            (e.appends final _
              ∙ (λ i. h i ++ e.copies ms (suc p) (turn sys total (suc p)) i)
              ∙ take-take-drop (suc p) (turn sys total (suc p)) (flat ms))
            (sym (next_with fuel (suc p) final true (omega arith) (ltb→lt _ _ more) got) ∙ r)
      | inr none_left ↦
          let step = next_with fuel (suc p) final false (omega arith) (ltb→lt _ _ more) none_left in
          let bad : nospace ≡ defragged c = sym step ∙ r in cc
    ]
    | inr less ↦ ended fuel (suc p) final c (ground arith) h r
  ]

  -- One buffer, or a cluster and a small buffer, take the packet.
  loop_short :
      (fuel : ℕ) (final : Chain)
      → total ≤ sys.mclbytes + sys.mlen
      → sys.get (sys.mclbytes) ≡ true
      → (c : Chain) × (defrag_loop sys ms total (suc (suc (suc fuel))) 0 final ≡ defragged c)
  unfolding has_buffer
  loop_short fuel final h g = elim (Bool-cases (ltb 0 total)) [
    | inr less ↦ (final, done (suc (suc fuel)) 0 final (ground arith))
    | inl some_bytes ↦ elim (Bool-cases (ltb sys.mclbytes total)) [
      | inr one ↦ (
        _,
        first (suc (suc fuel)) final (ltb→lt _ _ some_bytes)
            ∙ done (suc fuel) (0 + turn sys total 0) _ (ground arith),
      )
      | inl two ↦
          let at : 0 + turn sys total 0 ≡ sys.mclbytes = ground arith in
          let all : total ≤ sys.mclbytes + turn sys total (sys.mclbytes) = ground arith in
          let room : has_buffer sys (sys.mclbytes) (turn sys total (sys.mclbytes)) ≡ true =
            ground (arith, e.clusters) in
          (
            _,
            first (suc (suc fuel)) final (ltb→lt _ _ some_bytes)
                ∙ ap
                    (λ n.
                      defrag_loop sys ms total (suc (suc fuel)) n
                        (sys.m_copydata ms 0 (turn sys total 0) ∷ []))
                    at
                ∙ next_with (suc fuel) (sys.mclbytes) _ true (omega (arith, e.clusters))
                    (ltb→lt _ _ two) room
                ∙ done fuel (sys.mclbytes + turn sys total (sys.mclbytes)) _ all,
          )
    ]
  ]

  loop_long :
      (fuel : ℕ) (final : Chain)
      → sys.mclbytes + sys.mlen < total
      → defrag_loop sys ms total (suc (suc fuel)) 0 final ≡ nospace
  unfolding has_buffer m_getcl
  loop_long fuel final h =
      let at : 0 + turn sys total 0 ≡ sys.mclbytes = ground arith in
      let full : has_buffer sys (sys.mclbytes) (turn sys total (sys.mclbytes)) ≡ false =
        let nonzero : (sys.mclbytes == 0) ≡ false = ground (arith, e.clusters) in
        let more : ltb sys.mlen (turn sys total (sys.mclbytes)) ≡ true =
          ground (arith, e.clusters) in
        rw (nonzero, more) refl in
      first (suc fuel) final (omega arith)
      ∙ ap
          (λ n. defrag_loop sys ms total (suc fuel) n (sys.m_copydata ms 0 (turn sys total 0) ∷ []))
          at
      ∙ next_with fuel (sys.mclbytes) _ false (omega (arith, e.clusters)) (omega arith) full

-- A new chain that m_defrag returns has the bytes of the packet, in order, for a packet of fewer than
-- 2 ^ 31 bytes.
pub m_defrag-flat :
    (sys : System) (ms c : Chain) (fuel : ℕ)
    → IsSystem sys
    → length (flat ms) < 2 ^ 31
    → m_defrag sys true ms fuel ≡ defragged c
    → flat c ≡ flat ms
unfolding m_defrag
m_defrag-flat sys ms c fuel e h r =
    loop-flat sys e ms (m_length ms) (m_length_lem ms (omega arith)) fuel 0 ([] ∷ []) c refl
      (ground arith)

-- m_defrag of a packet of fewer than 2 ^ 31 bytes, no longer than a cluster and a small buffer returns a new chain, with the
-- bytes of the packet, if the allocators serve it.
pub m_defrag_short :
    (sys : System) (ms : Chain) (fuel : ℕ)
    → IsSystem sys
    → length (flat ms) < 2 ^ 31
    → length (flat ms) ≤ sys.mclbytes + sys.mlen
    → sys.gethdr ≡ true
    → sys.clget ≡ true
    → sys.get (sys.mclbytes) ≡ true
    → 2 < fuel
    → (c : Chain) × (m_defrag sys true ms fuel ≡ defragged c) × (flat c ≡ flat ms)
unfolding m_defrag m_getcl
m_defrag_short sys ms fuel e h l a b g f =
    let total = m_length_lem ms (omega arith) in
    let (c, run) =
      loop_short sys e ms (m_length ms) total (fuel - 3) ([] ∷ []) (omega (arith, total)) g in
    let enough : suc (suc (suc (fuel - 3))) ≡ fuel = omega arith in
    let whole : m_defrag sys true ms fuel ≡ defragged c =
      served
        (subst (λ n. defrag_loop sys ms (m_length ms) n 0 ([] ∷ []) ≡ defragged c) enough run) in
    (c, whole, m_defrag-flat sys ms c fuel e h whole)
  where
    served :
        {r : Result}
        → defrag_loop sys ms (m_length ms) fuel 0 ([] ∷ []) ≡ r
        → m_defrag sys true ms fuel ≡ r
    served k = ground arith

-- m_defrag of a packet longer than a cluster and a small buffer together (mclbytes + mlen), and of
-- fewer than 2 ^ 31 bytes, returns NULL, whatever the allocators serve: the second buffer would have
-- to be a cluster, and m_getcl serves none without a packet header.
pub m_defrag_long :
    (sys : System) (ms : Chain) (fuel : ℕ)
    → IsSystem sys
    → length (flat ms) < 2 ^ 31
    → sys.mclbytes + sys.mlen < length (flat ms)
    → 1 < fuel
    → m_defrag sys true ms fuel ≡ nospace
unfolding m_defrag
m_defrag_long sys ms fuel e h l f =
    let total = m_length_lem ms (omega arith) in
    let run = loop_long sys e ms (m_length ms) total (fuel - 2) ([] ∷ []) (omega (arith, total)) in
    let enough : suc (suc (fuel - 2)) ≡ fuel = omega arith in
    let whole : defrag_loop sys ms (m_length ms) fuel 0 ([] ∷ []) ≡ nospace =
      subst (λ n. defrag_loop sys ms (m_length ms) n 0 ([] ∷ []) ≡ nospace) enough run in
    ground arith
