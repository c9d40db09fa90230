-- ===== src/States/Reachability.antt =====
-- Which states a document can be in, over sequences of allowed edges (src/wordsworth/states.py).
use wordsworth.Prelude.{◌≡◌, true, not, Option, some, List, [], ◌∷◌, contains, arith, ◌⊎◌, inl}
use wordsworth.States.{
  State, unprocessable_ocr, anonymized, indexed, failed, is_allowed, terminal, state_eq,
}

-- Each state is reached from the one before by an allowed edge.
abbrev pub IsHistory : Option State → List State → Type 0
IsHistory frm [] = Unit
IsHistory frm (to ∷ rest) = (is_allowed frm to ≡ true) × IsHistory (some to) rest

abbrev pub final : Option State → List State → Option State
final frm [] = frm
final frm (to ∷ rest) = final (some to) rest

-- `failed` can be reached by one edge from just the states that are neither terminal nor
-- `unprocessable_ocr`.
pub failed_edges :
    (s : State) → is_allowed (some s) failed ≡ not (contains (unprocessable_ocr ∷ terminal) s)
unfolding is_allowed
failed_edges s = ground arith

-- A sequence of allowed edges that ends in `indexed` has `anonymized` in it, or began in one of the
-- two.
pub indexed_needs_anonymized :
    (frm : Option State) (history : List State)
    → IsHistory frm history
    → final frm history ≡ some indexed
    → (frm ≡ some indexed) ⊎ (frm ≡ some anonymized) ⊎ (contains history anonymized ≡ true)
unfolding is_allowed
indexed_needs_anonymized frm [] h e = inl e
indexed_needs_anonymized frm (to ∷ rest) (a, h) e =
    ground (arith, indexed_needs_anonymized (some to) rest h e)
