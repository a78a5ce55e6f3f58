-- ===== src/Taskqueue/Chain.antt =====
-- Null-terminated lists in the `ta_next` fields, and the invariant of the queue.
use rtems_libbsdport.Prelude.{ℕ, ◌≡◌, false, not, List, [], ◌∷◌, ◌++◌, arith, ◌==◌}
use rtems_libbsdport.Prelude.Lists.{has, last_or, IsDistinct, last_or-has, has-ne}
use rtems_libbsdport.Taskqueue.{Tq, anchor}
use rtems_libbsdport.Prelude.Memory.{null, update}

-- The successors of `p` are `xs`, and the last one has none.
abbrev pub Chain : (ℕ → ℕ) → ℕ → List ℕ → Type 0
Chain next p [] = next p ≡ null
Chain next p (x ∷ xs) = (next p ≡ x) × Chain next x xs

-- The list that begins at `p` is `xs`.
abbrev pub Seg : (ℕ → ℕ) → ℕ → List ℕ → Type 0
Seg next p [] = p ≡ null
Seg next p (x ∷ xs) = (p ≡ x) × Chain next x xs

-- A write to the field of a node off the chain does not change the chain.
pub Chain-update :
    (next : ℕ → ℕ) (a v p : ℕ) (xs : List ℕ)
    → Chain next p xs
    → has a (p ∷ xs) ≡ false
    → Chain (update next a v) p xs
Chain-update next a v p [] c h = ground arith
Chain-update next a v p (x ∷ xs) c h = (ground arith, Chain-update next a v x xs c.1 (ground arith))

-- A fresh node behind the last one.
pub Chain-snoc :
    (next : ℕ → ℕ) (t p : ℕ) (xs : List ℕ)
    → Chain next p xs
    → has t (p ∷ xs) ≡ false
    → IsDistinct (p ∷ xs)
    → Chain (update (update next t null) (last_or p xs) t) p (xs ++ (t ∷ []))
Chain-snoc next t p [] c h d = ground arith
Chain-snoc next t p (x ∷ xs) c h d = (
  ground (arith, last_or-has x xs, has-ne (last_or x xs) p (x ∷ xs)),
  Chain-snoc next t x xs c.1 (ground arith) d.1,
)

pub Seg-update :
    (next : ℕ → ℕ) (a v p : ℕ) (xs : List ℕ)
    → Seg next p xs
    → has a xs ≡ false
    → Seg (update next a v) p xs
Seg-update next a v p [] c h = c
Seg-update next a v p (x ∷ xs) c h = (c.0, Chain-update next a v x xs c.1 h)

-- The queue holds `xs`, a detached list at `p` holds `ys`, and the tasks on either are exactly those
-- with a pending count.
pub record IsQueue (s : Tq) (xs ys : List ℕ) (p : ℕ) : Type 0 where
  pub chain : Chain s.ta_next anchor xs
  pub tail : s.tail ≡ last_or anchor xs
  pub rest : Seg s.ta_next p ys
  pub distinct : IsDistinct (null ∷ anchor ∷ (xs ++ ys))
  pub queued : (a : ℕ) → (s.ta_pending a == 0) ≡ not (has a (xs ++ ys))
