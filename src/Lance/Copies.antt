-- ===== src/Lance/Copies.antt =====
-- lance_put and lance_get: the bytes they move, and that what one writes the other reads.
use mathlib.Core.List.{append-nil}
use rtems_libbsdport.Prelude.{
  ℕ, zero, suc, ◌+◌, ◌-◌, ◌≤◌, ◌<◌, ◌≡◌, refl, sym, ap, ◌∙◌, true, false, ◌&&◌, ◌||◌, not, Bool,
  Option, none, some, List, [], ◌∷◌, ◌++◌, arith, ◌==◌, if◌then◌else◌, ltb, leb, ◌⊎◌, inl, inr,
  ==→eq, Bool-cases,
}
use rtems_libbsdport.Prelude.Memory.{update}
use rtems_libbsdport.Prelude.Lists.{length, length-append}
use rtems_libbsdport.Lance.{Chain, Host, ether_hdr_len, ether_crc_len, leblen, leminsize}
use rtems_libbsdport.Lance.Buffer.{
  lance_copytobuf_contig, lance_copyfrombuf_contig, lance_zerobuf_contig, put_loop, lance_put,
  get_mbuf, get_loop, lance_get,
}

abbrev pub flat : Chain → List ℕ
flat [] = []
flat (bs ∷ ms) = bs ++ flat ms

abbrev pub zeros : ℕ → List ℕ
zeros zero = []
zeros (suc n) = 0 ∷ zeros n

-- The frame that goes out: padded with zeros to the least length.
abbrev pub padded : List ℕ → List ℕ
padded bs = bs ++ zeros (leminsize - length bs)

length-zeros : (n : ℕ) → length (zeros n) ≡ n
length-zeros zero = refl
length-zeros (suc n) = ap suc (length-zeros n)

pub length-padded :
    (bs : List ℕ)
    → length (padded bs) ≡ (if ltb (length bs) leminsize then leminsize else length bs)
length-padded bs =
    ground (
      arith,
      length-append bs (zeros (leminsize - length bs)),
      length-zeros (leminsize - length bs),
    )

copytobuf-append :
    (mem : ℕ → ℕ) (xs ys : List ℕ) (boff : ℕ)
    → lance_copytobuf_contig mem (xs ++ ys) boff
      ≡ lance_copytobuf_contig (lance_copytobuf_contig mem xs boff) ys (boff + length xs)
unfolding lance_copytobuf_contig
copytobuf-append mem [] ys boff = ap (lance_copytobuf_contig mem ys) (omega arith)
copytobuf-append mem (x ∷ xs) ys boff =
    copytobuf-append (update mem boff x) xs ys (suc boff)
    ∙ ap (lance_copytobuf_contig _ ys) (omega arith)

zerobuf-copytobuf :
    (mem : ℕ → ℕ) (boff n : ℕ)
    → lance_zerobuf_contig mem boff n ≡ lance_copytobuf_contig mem (zeros n) boff
unfolding lance_copytobuf_contig lance_zerobuf_contig
zerobuf-copytobuf mem boff zero = refl
zerobuf-copytobuf mem boff (suc n) = zerobuf-copytobuf (update mem boff 0) (suc boff) n

triple :
    {A B C : Type 0} (a a' : A) (b b' : B) (c c' : C)
    → a ≡ a'
    → b ≡ b'
    → c ≡ c'
    → ◌≡◌ {A = A × B × C} (a, b, c) (a', b', c')
triple a a' b b' c c' e f g = rw (e, f, g) refl

put_loop_lem :
    (mem : ℕ → ℕ) (boff tlen : ℕ) (m : Chain)
    → put_loop mem boff tlen m
      ≡ (lance_copytobuf_contig mem (flat m) boff, boff + length (flat m), tlen + length (flat m))
unfolding lance_copytobuf_contig put_loop
put_loop_lem mem boff tlen [] = triple _ _ _ _ _ _ refl (omega arith) (omega arith)
put_loop_lem mem boff tlen ([] ∷ ms) = put_loop_lem mem boff tlen ms
put_loop_lem mem boff tlen ((b ∷ bs) ∷ ms) =
    put_loop_lem (lance_copytobuf_contig mem (b ∷ bs) boff) _ _ ms
    ∙ triple _ _ _ _ _ _ (sym (copytobuf-append mem (b ∷ bs) (flat ms) boff))
        (omega (arith, length-append bs (flat ms))) (omega (arith, length-append bs (flat ms)))

pair : {A B : Type 0} (a a' : A) (b b' : B) → a ≡ a' → b ≡ b' → ◌≡◌ {A = A × B} (a, b) (a', b')
pair a a' b b' e f = rw (e, f) refl

zeros-none : (n : ℕ) → n ≡ 0 → zeros n ≡ []
zeros-none n h = ap zeros h

put_tail :
    (mem : ℕ → ℕ) (boff : ℕ) (bs : List ℕ)
    → ◌≡◌ {A = (ℕ → ℕ) × ℕ}
        (if ltb (0 + length bs) leminsize
          then (
            lance_zerobuf_contig
                (lance_copytobuf_contig mem bs boff)
                (boff + length bs)
                (leminsize - (0 + length bs)),
            leminsize,
          )
          else (lance_copytobuf_contig mem bs boff, 0 + length bs))
        (lance_copytobuf_contig mem (padded bs) boff, length (padded bs))
put_tail mem boff bs =
    let z : 0 + length bs ≡ length bs = omega arith in
    let n = leminsize - length bs in
    rw (z, length-padded bs)
      (elim (Bool-cases (ltb (length bs) leminsize)) [
        | inl h ↦ rw h (
            pair _ _ _ _
              (zerobuf-copytobuf _ (boff + length bs) n
                ∙ sym (copytobuf-append mem bs (zeros n) boff))
              refl)
        | inr h ↦ rw h (
            pair _ _ _ _
              (ap (λ xs. lance_copytobuf_contig mem xs boff)
                (sym (ap (λ ys. bs ++ ys) (zeros-none n (ground arith)) ∙ append-nil bs)))
              refl)
      ])

-- lance_put is one copy of the padded frame, of whichever mbufs the chain is made.
pub put-padded :
    (mem : ℕ → ℕ) (boff : ℕ) (m : Chain)
    → lance_put mem boff m
      ≡ (lance_copytobuf_contig mem (padded (flat m)) boff, length (padded (flat m)))
unfolding lance_put
put-padded mem boff m = rw (put_loop_lem mem boff 0 m) (put_tail mem boff (flat m))

-- A copy leaves alone what it does not write.
pub copytobuf-outside :
    (mem : ℕ → ℕ) (xs : List ℕ) (boff a : ℕ)
    → (leb boff a && ltb a (boff + length xs)) ≡ false
    → lance_copytobuf_contig mem xs boff a ≡ mem a
unfolding lance_copytobuf_contig
copytobuf-outside mem [] boff a h = refl
copytobuf-outside mem (x ∷ xs) boff a h =
    copytobuf-outside (update mem boff x) xs (suc boff) a (ground arith) ∙ ground arith

pub copyfrombuf-same :
    (mem mem' : ℕ → ℕ) (boff n : ℕ)
    → ((i : ℕ) → i < n → mem (boff + i) ≡ mem' (boff + i))
    → lance_copyfrombuf_contig mem boff n ≡ lance_copyfrombuf_contig mem' boff n
unfolding lance_copyfrombuf_contig
copyfrombuf-same mem mem' boff zero h = refl
copyfrombuf-same mem mem' boff (suc n) h =
    let e : mem boff ≡ mem' boff = ground (arith, h 0) in
    rw e (
      ap (λ xs. mem' boff ∷ xs)
        (copyfrombuf-same mem mem' (suc boff) n (λ i l. ground (arith, h (suc i)))))

pub copyfrombuf-copytobuf :
    (mem : ℕ → ℕ) (xs : List ℕ) (boff : ℕ)
    → lance_copyfrombuf_contig (lance_copytobuf_contig mem xs boff) boff (length xs) ≡ xs
unfolding lance_copyfrombuf_contig lance_copytobuf_contig
copyfrombuf-copytobuf mem [] boff = refl
copyfrombuf-copytobuf mem (x ∷ xs) boff =
    let e : lance_copytobuf_contig (update mem boff x) xs (suc boff) boff ≡ x =
      copytobuf-outside (update mem boff x) xs (suc boff) boff (ground arith) ∙ ground arith in
    rw e (ap (λ ys. x ∷ ys) (copyfrombuf-copytobuf (update mem boff x) xs (suc boff)))

next_sum : (m n : ℕ) → suc (m + n) ≡ suc m + n
next_sum m n = omega arith

copyfrombuf-split :
    (mem : ℕ → ℕ) (boff m n : ℕ)
    → lance_copyfrombuf_contig mem boff m ++ lance_copyfrombuf_contig mem (boff + m) n
      ≡ lance_copyfrombuf_contig mem boff (m + n)
unfolding lance_copyfrombuf_contig
copyfrombuf-split mem boff zero n =
    ap (λ a. lance_copyfrombuf_contig mem a n) (omega arith)
    ∙ ap (lance_copyfrombuf_contig mem boff) (omega arith)
copyfrombuf-split mem boff (suc m) n =
    ap (λ xs. mem boff ∷ xs)
      (ap (λ a. lance_copyfrombuf_contig mem (suc boff) m ++ lance_copyfrombuf_contig mem a n)
          (omega arith)
        ∙ copyfrombuf-split mem (suc boff) m n)
    ∙ ap (lance_copyfrombuf_contig mem boff) (next_sum m n)

-- The bytes of an mbuf chain that lance_get makes, or an allocation that failed.
abbrev pub IsRead : Host → (ℕ → ℕ) → (boff n : ℕ) → Option Chain → Type 0
IsRead h mem boff n r =
    ((ms : Chain) × (r ≡ some ms) × (flat ms ≡ lance_copyfrombuf_contig mem boff n))
    ⊎ ((r ≡ none) × ((i : ℕ) × (h.is_got i ≡ false)))

-- Each kind of mbuf has room behind what the alignment leaves out.
pub record IsHost (h : Host) : Type 0 where
  pub mhlen : h.pad false < h.mhlen
  pub mlen : 0 < h.mlen
  pub mclbytes : h.pad true < h.mclbytes

get_mbuf-done :
    (h : Host) (mem : ℕ → ℕ) (boff totlen n : ℕ) (is_cluster : Bool) (allocs : ℕ)
    (rest : Option Chain × ℕ)
    → (totlen == 0) ≡ true
    → IsRead h mem boff totlen (get_mbuf h mem boff totlen n is_cluster allocs rest).0
unfolding get_mbuf lance_copyfrombuf_contig
get_mbuf-done h mem boff totlen n is_cluster allocs rest z =
    rw z (inl ([], refl, ap (lance_copyfrombuf_contig mem boff) (sym (==→eq totlen 0 z))))

get_mbuf-IsRead :
    (h : Host) (mem : ℕ → ℕ) (boff totlen n : ℕ) (is_cluster : Bool) (allocs : ℕ)
    (rest : Option Chain × ℕ)
    → n ≤ totlen
    → IsRead h mem (boff + n) (totlen - n) rest.0
    → IsRead h mem boff totlen (get_mbuf h mem boff totlen n is_cluster allocs rest).0
unfolding get_mbuf
get_mbuf-IsRead h mem boff totlen n is_cluster allocs rest l r = elim (Bool-cases (totlen == 0)) [
  | inl z ↦ get_mbuf-done h mem boff totlen n is_cluster allocs rest z
  | inr z ↦ elim (Bool-cases (is_cluster && not (h.is_got allocs))) [
    | inl c ↦ rw (z, c) (inr (refl, (allocs, ground arith)))
    | inr c ↦ elim (Bool-cases (totlen - n == 0)) [
      | inl k ↦
          rw (z, c, k)
            (inl (
              bytes ∷ [],
              refl,
              append-nil bytes ∙ ap (lance_copyfrombuf_contig mem boff) (ground arith),
            ))
      | inr k ↦ elim (Bool-cases (h.is_got (if is_cluster then suc allocs else allocs))) [
        | inl g ↦ rw (z, c, k, g) (joined r)
        | inr g ↦ rw (z, c, k, g) (inr (refl, (_, g)))
      ]
    ]
  ]
]
  where
    bytes : List ℕ
    bytes = lance_copyfrombuf_contig mem boff n

    joined :
        IsRead h mem (boff + n) (totlen - n) rest.0
        → IsRead h mem boff totlen (elim rest.0 [ none ↦ none | some ms ↦ some (bytes ∷ ms) ])
    joined (inl (ms, e, f)) = rw e (
        inl (
          bytes ∷ ms,
          refl,
          ap (λ ys. bytes ++ ys) f
              ∙ copyfrombuf-split mem boff n (totlen - n)
              ∙ ap (lance_copyfrombuf_contig mem boff) (omega arith),
        ))
    joined (inr (e, i)) = rw e (inr (refl, i))

get_loop-IsRead :
    (h : Host) (mem : ℕ → ℕ) (fuel boff totlen len : ℕ) (skip : Bool → ℕ) (allocs : ℕ)
    → totlen < fuel
    → skip false < len
    → skip true < h.mclbytes
    → 0 < h.mlen
    → IsRead h mem boff totlen (get_loop h mem fuel boff totlen len skip allocs).0
unfolding get_loop
get_loop-IsRead h mem zero boff totlen len skip allocs f l c m = absurd (omega arith)
get_loop-IsRead h mem (suc fuel) boff totlen len skip allocs f l c m =
    elim (Bool-cases (totlen == 0)) [
      | inl z ↦ get_mbuf-done h mem boff totlen _ _ allocs _ z
      | inr z ↦
          get_mbuf-IsRead h mem boff totlen _ _ allocs _ (ground arith)
            (get_loop-IsRead h mem fuel _ _ h.mlen (λ c. 0) _ (ground arith) m (ground arith) m)
    ]

-- A frame that the chip may have received, between the header's length and what a buffer holds: what
-- lance_get makes of it is a chain of exactly its bytes, in order, or nothing where an mbuf or a
-- cluster could not be had.
pub lance_get-IsRead :
    (h : Host) (mem : ℕ → ℕ) (boff totlen allocs : ℕ)
    → IsHost h
    → ether_hdr_len < totlen
    → totlen ≤ leblen - ether_crc_len
    → IsRead h mem boff totlen (lance_get h mem boff totlen allocs).0
unfolding lance_get
lance_get-IsRead h mem boff totlen allocs k a b =
    let t : (leb totlen ether_hdr_len || ltb (leblen - ether_crc_len) totlen) ≡ false =
      ground arith in
    elim (Bool-cases (h.is_got allocs)) [
      | inl g ↦
          rw (t, g)
            (get_loop-IsRead h mem (suc totlen) boff totlen h.mhlen h.pad (suc allocs) (omega arith)
              k.mhlen k.mclbytes k.mlen)
      | inr g ↦ rw (t, g) (inr (refl, (allocs, g)))
    ]

-- A frame of any other length is dropped, and no mbuf is asked for.
pub lance_get-other :
    (h : Host) (mem : ℕ → ℕ) (boff totlen allocs : ℕ)
    → (totlen ≤ ether_hdr_len) ⊎ (leblen - ether_crc_len < totlen)
    → lance_get h mem boff totlen allocs ≡ (none, allocs)
unfolding lance_get
lance_get-other h mem boff totlen allocs (inl l) = ground arith
lance_get-other h mem boff totlen allocs (inr l) = ground arith

-- For a packet of at most leblen - ether_crc_len bytes, the longest frame, and where every allocation
-- succeeds, lance_get reads back what lance_put wrote at the same place, padded to the least length
-- of a frame.
pub lance_get-lance_put :
    (h : Host) (mem : ℕ → ℕ) (boff allocs : ℕ) (m : Chain)
    → IsHost h
    → ((i : ℕ) → h.is_got i ≡ true)
    → length (flat m) ≤ leblen - ether_crc_len
    → (ms : Chain) × ((lance_get h (lance_put mem boff m).0 boff (lance_put mem boff m).1 allocs).0
        ≡ some ms)
      × (flat ms ≡ padded (flat m))
lance_get-lance_put h mem boff allocs m k g l =
    let bs = padded (flat m) in
    let mem' = lance_copytobuf_contig mem bs boff in
    rw (put-padded mem boff m)
      (elim (lance_get-IsRead h mem' boff (length bs) allocs k
        (ground (arith, length-padded (flat m))) (ground (arith, length-padded (flat m)))) [
          | inl (ms, e, f) ↦ (ms, e, f ∙ copyfrombuf-copytobuf mem bs boff)
          | inr (e, (i, x)) ↦ absurd (ground (arith, x, g i))
        ])
