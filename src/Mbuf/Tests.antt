-- ===== src/Mbuf/Tests.antt =====
-- Runs of the functions on packet buffers, with small buffers.
use rtems_libbsdport.Prelude.{◌≡◌, refl, true, [], ◌∷◌, ◌++◌, arith}
use rtems_libbsdport.Prelude.Lists.{take, drop}
use mathlib.Core.List.{append_assoc, append-nil}
use rtems_libbsdport.Mbuf.{Bytes, Chain, System, nospace, m_defrag}
use rtems_libbsdport.Mbuf.Defrag.{flat, IsSystem, m_defrag_long}

-- Clusters of four bytes and small buffers of two, all of which are served.
abbrev small : System
small = record {
  mhlen = 2;
  mlen = 2;
  mclbytes = 4;
  gethdr = true;
  clget = true;
  get = λ progress. true;
  m_copydata = λ ms off len. take len (drop off (flat ms));
  m_cat = λ ms m. ms ++ (m ∷ []);
}

small-IsSystem : IsSystem small
small-IsSystem = record {
  copies = λ ms off len. refl;
  appends = flat_end;
  clusters = (omega arith, omega arith);
}
  where
    flat_end : (ms : Chain) (m : Bytes) → flat (ms ++ (m ∷ [])) ≡ flat ms ++ m
    flat_end [] m = append-nil m
    flat_end (x ∷ xs) m = rw (flat_end xs m) (rw append_assoc refl)

abbrev five_bytes : Chain
five_bytes = (1 ∷ []) ∷ (2 ∷ 3 ∷ []) ∷ [] ∷ (4 ∷ []) ∷ (5 ∷ []) ∷ []

m_defrag_long_example : m_defrag small true (five_bytes ++ ((6 ∷ 7 ∷ []) ∷ [])) 2 ≡ nospace
m_defrag_long_example =
    m_defrag_long small (five_bytes ++ ((6 ∷ 7 ∷ []) ∷ [])) 2 small-IsSystem (omega arith)
      (omega arith) (omega arith)
