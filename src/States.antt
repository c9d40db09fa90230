-- ===== src/States.antt =====
-- src/wordsworth/states.py: the document states and the allowed edges between them.
pub mod Reachability
use wordsworth.Prelude.{
  ◌≡◌, Bool, true, false, not, Option, none, some, List, [], ◌∷◌, ◌++◌, String, Eq, ◌==◌, contains,
  keep, arith, ◌↔◌,
}

pub data State : Type 0 where
  registered extractable unprocessable_ocr extracted anonymized indexed : State
  failed superseded deleted : State

-- `State.value`
unfoldable pub value : State → String
value registered = "registered"
value extractable = "extractable"
value unprocessable_ocr = "unprocessable_ocr"
value extracted = "extracted"
value anonymized = "anonymized"
value indexed = "indexed"
value failed = "failed"
value superseded = "superseded"
value deleted = "deleted"

abbrev pub state_beq : State → State → Bool
state_beq registered registered = true
state_beq extractable extractable = true
state_beq unprocessable_ocr unprocessable_ocr = true
state_beq extracted extracted = true
state_beq anonymized anonymized = true
state_beq indexed indexed = true
state_beq failed failed = true
state_beq superseded superseded = true
state_beq deleted deleted = true
state_beq _ _ = false

pub state_beq_iff : (a b : State) → (state_beq a b ≡ true) ↔ (a ≡ b)
state_beq_iff a b = ground arith

instance abbrev pub state_eq : Eq State
state_eq = record { beq = state_beq; beq_iff = state_beq_iff }

-- `TERMINAL`
abbrev pub terminal : List State
terminal = indexed ∷ failed ∷ superseded ∷ deleted ∷ []

-- `_EDGES`; `none` outside: not a key of the dict
abbrev pub edges : Option State → Option (List State)
edges none = some (registered ∷ [])
edges (some registered) = some (extractable ∷ unprocessable_ocr ∷ failed ∷ [])
edges (some unprocessable_ocr) = some (extractable ∷ [])
edges (some extractable) = some (extracted ∷ failed ∷ [])
edges (some extracted) = some (anonymized ∷ failed ∷ [])
edges (some anonymized) = some (indexed ∷ failed ∷ [])
edges (some indexed) = some []
edges (some failed) = some []
edges (some superseded) = some []
edges (some deleted) = none

-- `({SUPERSEDED, DELETED} - {frm}) if frm is not None else frozenset()`
abbrev pub retirements : Option State → List State
retirements none = []
retirements (some frm) = keep (λ s. not (s == frm)) (superseded ∷ deleted ∷ [])

-- `ALLOWED.get(frm, frozenset())`
abbrev pub allowed : Option State → List State
allowed frm = elim (edges frm) [ none ↦ [] | some to ↦ to ++ retirements frm ]

unfoldable pub is_allowed : Option State → State → Bool
is_allowed frm to = contains (allowed frm) to
