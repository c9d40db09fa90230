-- ===== src/Rag/Grounded.antt =====
-- Which citations survive, and that an answer without one is not returned.
use wordsworth.Prelude.{
  String, ◌≡◌, refl, Bool, true, false, not, ◌&&◌, ◌||◌, List, [], ◌∷◌, ◌++◌, ◌==◌, ◌≤◌, length,
  string_eq, contains, map, Outcome, ok, arith, Bool-cases, inl, inr, ◌⊎◌, eq_iff,
}
use wordsworth.World.{Exc}
use wordsworth.Rag.{
  Source, Answer, verify_citations, grounded, answer_with, no_grounded_answer, ask,
}

contains-append :
    (x : String) (xs ys : List String) → contains (xs ++ ys) x ≡ (contains xs x || contains ys x)
contains-append x [] ys = refl
contains-append x (y ∷ xs) ys = ground (arith, contains-append x xs ys)

contains-verify_citations :
    (retrieved verified cs : List String) (x : String)
    → contains (verify_citations retrieved verified cs) x
      ≡ (contains verified x || (contains cs x && contains retrieved x))
unfolding verify_citations
contains-verify_citations retrieved verified [] x = ground arith
contains-verify_citations retrieved verified (c ∷ cs) x = elim (Bool-cases (x == c)) [
  | inl same ↦ rw ((eq_iff x c).0 same) (
      ground (
        arith,
        contains-verify_citations retrieved verified cs c,
        contains-verify_citations retrieved (verified ++ c ∷ []) cs c,
        contains-append c verified (c ∷ []),
        eq_iff c c,
      ))
  | inr other ↦ ground (
    arith,
    contains-verify_citations retrieved verified cs x,
    contains-verify_citations retrieved (verified ++ c ∷ []) cs x,
    contains-append x verified (c ∷ []),
    other,
  )
]

-- No text stands in the list twice.
pub is_distinct : List String → Bool
is_distinct [] = true
is_distinct (x ∷ xs) = not (contains xs x) && is_distinct xs

is_distinct-append :
    (xs : List String) (y : String)
    → is_distinct xs ≡ true
    → contains xs y ≡ false
    → is_distinct (xs ++ y ∷ []) ≡ true
unfolding is_distinct
is_distinct-append [] y d n = refl
is_distinct-append (x ∷ xs) y d n =
    ground (arith, is_distinct-append xs y, contains-append x xs (y ∷ []), eq_iff x y, eq_iff y x)

distinct_verified :
    (retrieved verified cs : List String)
    → is_distinct verified ≡ true
    → is_distinct (verify_citations retrieved verified cs) ≡ true
unfolding verify_citations
distinct_verified retrieved verified [] d = d
distinct_verified retrieved verified (c ∷ cs) d =
    elim (Bool-cases (contains retrieved c && not (contains verified c))) [
      | inl new ↦ rw new (
          distinct_verified retrieved (verified ++ c ∷ []) cs
            (is_distinct-append verified c d (ground arith)))
      | inr old ↦ rw old (distinct_verified retrieved verified cs d)
    ]

-- The text goes with the citations: the model's own with some, the refusal with none.
abbrev pub IsFitting : Answer → Answer → Type 0
IsFitting a b =
    ((b.citations ≡ []) × (b.text ≡ no_grounded_answer))
    ⊎ ((1 ≤ length b.citations) × (b.text ≡ a.text))

module _ (retrieved : List String) (a : Answer) where
  grounded-citations : (grounded retrieved a).citations ≡ verify_citations retrieved [] a.citations
  unfolding grounded
  grounded-citations = kept (verify_citations retrieved [] a.citations)
    where
      kept : (vs : List String) → (answer_with a vs).citations ≡ vs
      kept [] = refl
      kept (v ∷ vs) = refl

  grounded-IsFitting : IsFitting a (grounded retrieved a)
  unfolding grounded
  grounded-IsFitting = fitting (verify_citations retrieved [] a.citations)
    where
      fitting : (vs : List String) → IsFitting a (answer_with a vs)
      fitting [] = inl (refl, refl)
      fitting (v ∷ vs) = inr (omega arith, refl)

-- Where the model answers, so does `ask`. It cites just the sources that the model cited and that
-- were retrieved, each once; the text is the model's if there is such a source, and else the refusal.
pub ask-IsFitting :
    (generate : String → List Source → Outcome Exc Answer) (query : String) (sources : List Source)
    (a : Answer) (x : String)
    → generate query sources ≡ ok a
    → (b : Answer) × (ask generate query sources ≡ ok b)
      × (contains b.citations x
          ≡ (contains a.citations x && contains (map (λ s. s.document_id) sources) x))
      × (is_distinct b.citations ≡ true)
      × IsFitting a b
unfolding ask is_distinct
ask-IsFitting generate query sources a x e =
    let ids = map (λ (s : Source). s.document_id) sources in
    let cited = grounded-citations ids a in
    (
      grounded ids a,
      rw (e, ask) refl,
      rw cited (contains-verify_citations ids [] a.citations x),
      rw cited (distinct_verified ids [] a.citations refl),
      grounded-IsFitting ids a,
    )
