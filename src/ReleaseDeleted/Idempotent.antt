-- ===== src/ReleaseDeleted/Idempotent.antt =====
-- A run releases every key that it finds.
use Prim.Native.Char.{code}
use Prim.Native.String.{String, ◌++◌ as append_string, [] as empty, ◌∷◌ as cons_text}
use text.Mathlib.TextLemmas.{cons-append}
use wordsworth.Prelude.{
  ℕ, ◌≡◌, refl, Bool, true, false, not, ◌&&◌, Option, some, List, [], ◌∷◌, ◌==◌, nat_eq, option_eq,
  ok, pure, ◌>>◌, map, keep, contains, Returns, Returns-bind, Returns-same, arith, Bool-cases, inl,
  inr, ap, sym, ◌∙◌, beq_refl, nat_beq_iff, option_beq_iff, beq_refl,
}
use wordsworth.Json.{str, end, field}
use wordsworth.States.{State, deleted, state_eq}
use wordsworth.World.{World, Document, find_document, set_document, savepoint}
use wordsworth.Audit.{Host, append, current_state}
use wordsworth.Audit.Records.{current_state-event}
use wordsworth.Deletion.{released_object_key}
use wordsworth.Deletion.Rows.{set_document-found}
use wordsworth.ReleaseDeleted.{
  starts_with, deleted_key_prefix, candidates_in, find_candidates, release, release_each, run,
}

starts_with-append : (p s : String) → starts_with p (append_string p s) ≡ true
unfolding starts_with
starts_with-append empty s = refl
starts_with-append (cons_text c p) s =
    rw (cons-append c p s) (rw (beq_refl (code c)) (starts_with-append p s))

module _ (h : Host) where
  placeholder : (d : ℕ) → starts_with deleted_key_prefix (released_object_key h d) ≡ true
  unfolding starts_with released_object_key
  placeholder d = starts_with-append deleted_key_prefix (h.uuid_text d)

  -- The rows that one release leaves.
  abbrev after_release : ℕ → List Document → List Document
  after_release d ds = set_document d (λ x. record x { object_key = released_object_key h d }) ds

  candidates_in-release :
      (state : ℕ → Option State) (d : ℕ) (ds : List Document)
      → candidates_in state (after_release d ds)
        ≡ keep (λ c. not (c.0 == d)) (candidates_in state ds)
  unfolding candidates_in set_document
  candidates_in-release state d [] = refl
  candidates_in-release state d (x ∷ ds) = elim (Bool-cases (x.id == d)) [
    | inl mine ↦
        elim (Bool-cases
          (state x.id == some deleted && not (starts_with deleted_key_prefix x.object_key))) [
            | inl candidate ↦
                rw (mine, placeholder d, candidate)
                  (ground (arith, mine, candidates_in-release state d ds))
            | inr out ↦
                rw (mine, placeholder d, out) (ground (arith, candidates_in-release state d ds))
          ]
    | inr other ↦
        elim (Bool-cases
          (state x.id == some deleted && not (starts_with deleted_key_prefix x.object_key))) [
            | inl candidate ↦
                rw (other, candidate) (ground (arith, other, candidates_in-release state d ds))
            | inr out ↦ rw (other, out) (candidates_in-release state d ds)
          ]
  ]

contains-keep :
    (d e : ℕ) (cs : List (ℕ × String))
    → contains (map (λ c. c.0) (keep (λ c. not (c.0 == d)) cs)) e ≡ true
    → (contains (map (λ c. c.0) cs) e ≡ true) × ((e == d) ≡ false)
contains-keep d e [] k = absurd (cc k)
contains-keep d e ((n, s) ∷ cs) k = elim (Bool-cases (n == d)) [
  | inl same ↦
      let (there, differ) = contains-keep d e cs (rw same at k) in (ground (arith, there), differ)
  | inr other ↦ elim (Bool-cases (e == n)) [
    | inl mine ↦ (ground (arith, mine), ground (arith, mine, other))
    | inr not_mine ↦
        let (there, differ) = contains-keep d e cs (rw (other, not_mine) at k) in
        (ground (arith, there), differ)
  ]
]

none_left :
    (cs : List (ℕ × String))
    → ((e : ℕ) → contains (map (λ c. c.0) cs) e ≡ true → contains [] e ≡ true)
    → cs ≡ []
none_left [] covered = refl
none_left ((n, s) ∷ cs) covered = absurd (cc (covered n (ground arith)))

found_later :
    (x : Document) (ds : List Document) (e : ℕ)
    → (y : Document) × (find_document e ds ≡ some y)
    → (y : Document) × (find_document e (x ∷ ds) ≡ some y)
unfolding find_document
found_later x ds e (y, found) = elim (Bool-cases (x.id == e)) [
  | inl here ↦ (x, rw here refl)
  | inr later ↦ (y, rw later found)
]

and_first : (a b : Bool) → (a && b) ≡ true → a ≡ true
and_first true b k = refl
and_first false b k = k

candidate_row :
    (state : ℕ → Option State) (ds : List Document) (e : ℕ)
    → contains (map (λ c. c.0) (candidates_in state ds)) e ≡ true
    → (state e ≡ some deleted) × ((x : Document) × (find_document e ds ≡ some x))
unfolding candidates_in find_document
candidate_row state [] e k = absurd (cc k)
candidate_row state (x ∷ ds) e k =
    elim (Bool-cases
      (state x.id == some deleted && not (starts_with deleted_key_prefix x.object_key))) [
        | inl candidate ↦ elim (Bool-cases (e == x.id)) [
          | inl mine ↦
              let same : e ≡ x.id = (nat_beq_iff e x.id).0 mine in
              let at : state x.id ≡ some deleted =
                (option_beq_iff (state x.id) (some deleted)).0 (and_first _ _ candidate) in
              let here : (x.id == e) ≡ true = (nat_beq_iff x.id e).1 (sym same) in
              (ap state same ∙ at, (x, rw here refl))
          | inr other ↦
              let (at, row) = candidate_row state ds e (rw (candidate, other) at k) in
              (at, found_later x ds e row)
        ]
        | inr out ↦
            let (at, row) = candidate_row state ds e (rw out at k) in (at, found_later x ds e row)
      ]

candidates_in-same :
    (f g : ℕ → Option State) (ds : List Document)
    → ((e : ℕ) → f e ≡ g e)
    → candidates_in f ds ≡ candidates_in g ds
unfolding candidates_in
candidates_in-same f g [] same = refl
candidates_in-same f g (x ∷ ds) same = rw (same x.id, candidates_in-same f g ds same) refl

module _ (h : Host) where
  -- What is found lies among the ids, and they are documents that are deleted.
  record Remaining (ids : List ℕ) (w : World) : Type 0 where
    covered :
        (e : ℕ) → contains (map (λ c. c.0) (find_candidates w)) e ≡ true → contains ids e ≡ true
    ready :
        (e : ℕ)
        → contains ids e ≡ true
        → (current_state e w ≡ some deleted)
          × ((x : Document) × (find_document e w.documents ≡ some x))

  release-Returns :
      (d : ℕ) (key : String) (w : World)
      → current_state d w ≡ some deleted
      → (x : Document) × (find_document d w.documents ≡ some x)
      → Returns (savepoint (release h d key)) w (λ u v.
        (v.documents ≡ after_release h d w.documents)
        × ((e : ℕ) → current_state e v ≡ current_state e w))
  unfolding release append current_state
  release-Returns d key w at (x, found) =
      let w' : World = record w { documents = after_release h d w.documents } in
      let p = field "released_object_key" (str key) end in
      Returns-same (savepoint (release h d key))
        (append h d (some deleted) deleted "release-key" p >> pure tt) w w' (rw found refl)
        (record {
          value = tt;
          returned = refl;
          holds = (refl, λ e. current_state-event h d deleted "release-key" p w' e at);
        })

  release_each-Remaining :
      (cs : List (ℕ × String)) (w : World)
      → Remaining (map (λ c. c.0) cs) w
      → Returns (release_each h cs) w (λ u v. Remaining [] v)
  unfolding release_each find_candidates
  release_each-Remaining [] w x = record { value = tt; returned = refl; holds = x }
  release_each-Remaining ((d, key) ∷ cs) w x =
      let (at, row) = x.ready d (ground arith) in
      let ids = map (λ (c : ℕ × String). c.0) cs in
      Returns-bind (savepoint (release h d key)) (λ u. release_each h cs) w
        (release-Returns d key w at row)
        λ u (documents, states).
          let v = (savepoint (release h d key) w).1 in
          let found : find_candidates v ≡ keep (λ c. not (c.0 == d)) (find_candidates w) =
            candidates_in-same (λ e. current_state e v) (λ e. current_state e w) v.documents states
            ∙ ap (candidates_in (λ e. current_state e w)) documents
            ∙ candidates_in-release h (λ e. current_state e w) d w.documents in
          release_each-Remaining cs v (record {
            covered = λ e k.
                let (there, differ) =
                  contains-keep d e (find_candidates w)
                    (ap (λ r. contains (map (λ c. c.0) r) e) (sym found) ∙ k) in
                let listed = x.covered e there in ground (arith, listed, differ);
            ready = λ e k.
                let (state, (y, here)) = x.ready e (ground (arith, k)) in
                let (z, kept) =
                  set_document-found d e (λ q. record q { object_key = released_object_key h d })
                    w.documents (λ q. refl) y here in
                (states e ∙ state, (z, ap (find_document e) documents ∙ kept));
          })

  first_Remaining : (w : World) → Remaining (map (λ c. c.0) (find_candidates w)) w
  unfolding find_candidates
  first_Remaining w = record {
    covered = λ e k. k;
    ready = λ e k. candidate_row (λ d. current_state d w) w.documents e k;
  }

  -- A run that is applied finishes and reports as released all that it found, and after it there is
  -- nothing to find.
  pub find_candidates-run :
      (w : World)
      → ((run h true w).0
          ≡ ok (map (λ c. c.0) (find_candidates w), map (λ c. c.0) (find_candidates w)))
        × (find_candidates (run h true w).1 ≡ [])
  unfolding run
  find_candidates-run w =
      let each = release_each-Remaining (find_candidates w) w (first_Remaining w) in
      (rw each.returned refl, ran w each)
    where
      ran :
          (w : World)
          → Returns (release_each h (find_candidates w)) w (λ u v. Remaining [] v)
          → find_candidates (run h true w).1 ≡ []
      ran w each = rw each.returned (none_left _ each.holds.covered)
