-- ===== src/Lance/Buffer.antt =====
-- The contiguous copies between mbufs and the chip's memory, lance_put and lance_get.
use rtems_libbsdport.Prelude.{
  ℕ, zero, suc, ◌+◌, ◌-◌, ◌&&◌, ◌||◌, not, Bool, Option, none, some, List, [], ◌∷◌, ◌==◌,
  if◌then◌else◌, ltb, leb,
}
use rtems_libbsdport.Prelude.Memory.{update}
use rtems_libbsdport.Prelude.Lists.{length}
use rtems_libbsdport.Lance.{Chain, Host, ether_hdr_len, ether_crc_len, leblen, leminsize}

-- lance_copytobuf_contig, lance_copyfrombuf_contig and lance_zerobuf_contig
unfoldable pub lance_copytobuf_contig : (ℕ → ℕ) → (from : List ℕ) → (boff : ℕ) → ℕ → ℕ
lance_copytobuf_contig mem [] boff = mem
lance_copytobuf_contig mem (b ∷ bs) boff = lance_copytobuf_contig (update mem boff b) bs (suc boff)

unfoldable pub lance_copyfrombuf_contig : (ℕ → ℕ) → (boff len : ℕ) → List ℕ
lance_copyfrombuf_contig mem boff zero = []
lance_copyfrombuf_contig mem boff (suc len) = mem boff ∷ lance_copyfrombuf_contig mem (suc boff) len

unfoldable pub lance_zerobuf_contig : (ℕ → ℕ) → (boff len : ℕ) → ℕ → ℕ
lance_zerobuf_contig mem boff zero = mem
lance_zerobuf_contig mem boff (suc len) = lance_zerobuf_contig (update mem boff 0) (suc boff) len

-- The loop of lance_put, with `boff` and `tlen` behind it.
unfoldable pub put_loop : (ℕ → ℕ) → (boff tlen : ℕ) → Chain → (ℕ → ℕ) × ℕ × ℕ
unfolding lance_copytobuf_contig
put_loop mem boff tlen [] = (mem, boff, tlen)
put_loop mem boff tlen ([] ∷ ms) = put_loop mem boff tlen ms
put_loop mem boff tlen ((b ∷ bs) ∷ ms) =
    let len = length (b ∷ bs) in
    put_loop (lance_copytobuf_contig mem (b ∷ bs) boff) (boff + len) (tlen + len) ms

-- lance_put
unfoldable pub lance_put : (ℕ → ℕ) → (boff : ℕ) → Chain → (ℕ → ℕ) × ℕ
unfolding put_loop lance_zerobuf_contig
lance_put mem boff m =
    let (mem', boff', tlen) = put_loop mem boff 0 m in
    if ltb tlen leminsize
    then (lance_zerobuf_contig mem' boff' (leminsize - tlen), leminsize)
    else (mem', tlen)

-- `min (a, b)`
abbrev pub least : ℕ → ℕ → ℕ
least a b = if ltb a b then a else b

-- A round of the loop of lance_get, which puts `n` bytes into an mbuf: none where an allocation
-- fails and the chain is freed. The number goes with the chain for the allocations asked for; `rest`
-- is what the other rounds make.
unfoldable pub get_mbuf :
    Host
    → (ℕ → ℕ)
    → (boff totlen n : ℕ) (is_cluster : Bool) (allocs : ℕ) → (rest : Option Chain × ℕ)
    → Option Chain × ℕ
unfolding lance_copyfrombuf_contig
get_mbuf h mem boff totlen n is_cluster allocs (rest, allocs') =
    let asked = if is_cluster then suc allocs else allocs in
    let bytes = lance_copyfrombuf_contig mem boff n in
    if totlen == 0
    then (some [], allocs)
    else if is_cluster && not (h.is_got allocs)
    then (none, asked)
    else if totlen - n == 0
    then (some (bytes ∷ []), asked)
    else if not (h.is_got asked)
    then (none, suc asked)
    else (elim rest [ none ↦ none | some ms ↦ some (bytes ∷ ms) ], allocs')

-- The loop: the mbuf at hand holds `len` bytes, and `skip` is what the alignment of the first one
-- leaves out. One round for each byte and one more are enough, as an mbuf has room for a byte.
unfoldable pub get_loop :
    Host → (ℕ → ℕ) → (fuel boff totlen len : ℕ) (skip : Bool → ℕ) (allocs : ℕ) → Option Chain × ℕ
unfolding get_mbuf
get_loop h mem zero boff totlen len skip allocs = (none, allocs)
get_loop h mem (suc fuel) boff totlen len skip allocs =
    let is_cluster = leb h.minclsize totlen in
    let n = least totlen ((if is_cluster then h.mclbytes else len) - skip is_cluster) in
    let asked = if is_cluster then suc allocs else allocs in
    get_mbuf h mem boff totlen n is_cluster allocs
      (get_loop h mem fuel (boff + n) (totlen - n) h.mlen (λ c. 0) (suc asked))

-- lance_get
unfoldable pub lance_get : Host → (ℕ → ℕ) → (boff totlen allocs : ℕ) → Option Chain × ℕ
unfolding get_loop
lance_get h mem boff totlen allocs =
    if leb totlen ether_hdr_len || ltb (leblen - ether_crc_len) totlen
    then (none, allocs)
    else if not (h.is_got allocs)
    then (none, suc allocs)
    else get_loop h mem (suc totlen) boff totlen h.mhlen h.pad (suc allocs)
