-- ===== src/Rag.antt =====
-- `ask` of src/wordsworth/rag.py: an answer over retrieved sources, its citations checked. What the
-- search returns and the language model are arguments.
pub mod Grounded
use wordsworth.Prelude.{
  String, Bool, true, false, not, ◌&&◌, List, [], ◌∷◌, ◌++◌, ◌==◌, string_eq, contains, map,
  Outcome, ok, err, if◌then◌else◌,
}
use wordsworth.World.{Exc}

-- `Source`
pub record Source : Type 0 where
  pub document_id : String
  pub text : String

-- `Answer`
pub record Answer : Type 0 where
  pub text : String
  pub citations : List String

-- `NO_GROUNDED_ANSWER`
abbrev pub no_grounded_answer : String
no_grounded_answer = "Geen onderbouwd antwoord: de bronnen dekken deze vraag niet."

-- The loop over the citations, with those that were verified so far.
unfoldable pub verify_citations : List String → List String → List String → List String
verify_citations retrieved verified [] = verified
verify_citations retrieved verified (c ∷ cs) =
    verify_citations retrieved
      (if contains retrieved c && not (contains verified c) then verified ++ c ∷ [] else verified)
      cs

-- The answer with the citations that were verified.
abbrev pub answer_with : Answer → List String → Answer
answer_with a [] = record { text = no_grounded_answer; citations = [] }
answer_with a (c ∷ cs) = record { text = a.text; citations = c ∷ cs }

-- What is returned for the answer that the model gave.
unfoldable pub grounded : List String → Answer → Answer
unfolding verify_citations
grounded retrieved a = answer_with a (verify_citations retrieved [] a.citations)

unfoldable pub ask :
    (String → List Source → Outcome Exc Answer) → String → List Source → Outcome Exc Answer
unfolding grounded
ask generate query sources = elim (generate query sources) [
  | err e ↦ err e
  | ok a ↦ ok (grounded (map (λ s. s.document_id) sources) a)
]
