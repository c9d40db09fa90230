-- ===== src/Deletion/Rows.antt =====
-- A deletion takes away no row of a document.
use wordsworth.Prelude.{
  ℕ, String, ◌≡◌, refl, Bool, true, false, ◌==◌, nat_eq, string_eq, option_eq, List, Outcome, Keeps,
  [], ◌∷◌, some, keeps_rules, Keeps-modify, arith, inl, inr, Option-cases, Bool-cases,
}
use wordsworth.Json.{Fields}
use wordsworth.States.{State, state_eq}
use wordsworth.World.{World, Exc, Document, find_document, set_document}
use wordsworth.Audit.{Host, append}
use wordsworth.Pipeline.{transition}
use wordsworth.Deletion.{
  release_token, remove_entry, remove_object, remove_rows, record_deletion, finish_deletion,
  delete_found, delete_document, DeletionCounts,
}
use wordsworth.Deletion.Steps.{KeptByRows, remove_rows-Keeps}

pub set_document-found :
    (d e : ℕ) (f : Document → Document) (ds : List Document)
    → ((x : Document) → (f x).id ≡ x.id)
    → (doc : Document) → find_document e ds ≡ some doc
    → (x : Document) × (find_document e (set_document d f ds) ≡ some x)
unfolding find_document set_document
set_document-found d e f [] same doc k = absurd (cc k)
set_document-found d e f (y ∷ ds) same doc k = elim (Bool-cases (y.id == d)) [
  | inl here ↦ rw here (elim (Bool-cases (y.id == e)) [
    | inl mine ↦ (f y, rw (same y, mine) refl)
    | inr other ↦ rw (same y, other) (set_document-found d e f ds same doc (rw other at k))
  ])
  | inr there ↦ rw there (elim (Bool-cases (y.id == e)) [
    | inl mine ↦ (y, rw mine refl)
    | inr other ↦ rw other (set_document-found d e f ds same doc (rw other at k))
  ])
]

module _ (e d : ℕ) where
  -- The document has a row.
  abbrev HasRow : World → Type 0
  HasRow w = (x : Document) × (find_document e w.documents ≡ some x)

  HasRow-KeptByRows : KeptByRows d HasRow
  unfolding release_token
  HasRow-KeptByRows = record {
    on_texts = λ w x. x;
    on_release = λ p w x. x;
    on_grants = λ w gs x. x;
  }

  row_carried :
      (ds es : List Document)
      → es ≡ ds
      → (x : Document) × (find_document e ds ≡ some x)
      → (x : Document) × (find_document e es ≡ some x)
  row_carried ds es same x = (x.0, rw same x.1)

  HasRow-entry :
      (answer : ℕ → Outcome Exc (Unit {0})) (dry_run : Bool)
      → Keeps HasRow (remove_entry answer dry_run d)
  unfolding remove_entry
  HasRow-entry answer dry_run = record { at = λ w x. row_carried w.documents _ (ground arith) x }

  HasRow-object : (dry_run : Bool) (key : String) → Keeps HasRow (remove_object dry_run d key)
  unfolding remove_object
  HasRow-object dry_run key = record { at = λ w x. row_carried w.documents _ (ground arith) x }

  HasRow-transition :
      (h : Host) (to : State) (step : String) (p : Fields) → Keeps HasRow (transition h d to step p)
  unfolding transition append
  HasRow-transition h to step p = record { at = λ w x. row_carried w.documents _ (ground arith) x }

  HasRow-record :
      (h : Host) (key actor : String) (already : Bool) (c : DeletionCounts)
      → Keeps HasRow (record_deletion h d key actor already c)
  unfolding record_deletion
  HasRow-record h key actor true c = search (keeps_rules, HasRow-transition) depth 8
  HasRow-record h key actor false c =
      search (keeps_rules, HasRow-transition, Keeps-modify, keyed) depth 8
    where
      keyed :
          (key : String) (w : World)
          → HasRow w
          → HasRow (record w {
            documents = set_document d (λ doc. record doc { object_key = key }) w.documents;
          })
      keyed key w (x, k) =
          set_document-found d e (λ doc. record doc { object_key = key }) w.documents (λ y. refl) x
            k

  HasRow-finish :
      (h : Host) (dry_run already : Bool) (key actor : String) (c : DeletionCounts)
      → Keeps HasRow (finish_deletion h dry_run already d key actor c)
  unfolding finish_deletion
  HasRow-finish h dry_run already key actor c = search (keeps_rules, HasRow-record) depth 6

  HasRow-rows : (dry_run : Bool) → Keeps HasRow (remove_rows dry_run d)
  HasRow-rows = remove_rows-Keeps HasRow d HasRow-KeptByRows

  HasRow-found :
      (h : Host) (answer : ℕ → Outcome Exc (Unit {0})) (actor : String) (dry_run : Bool)
      (doc : Document)
      → Keeps HasRow (delete_found h answer d actor dry_run doc)
  unfolding delete_found
  HasRow-found h answer actor dry_run doc =
      search (keeps_rules, HasRow-entry, HasRow-object, HasRow-rows, HasRow-finish) depth 14

  -- No row of a document goes.
  pub find_document-delete_document :
      (h : Host) (answer : ℕ → Outcome Exc (Unit {0})) (actor : String) (dry_run : Bool) (w : World)
      (doc : Document)
      → find_document e w.documents ≡ some doc
      → (x : Document) × (find_document e (delete_document h answer d actor dry_run w).1.documents
          ≡ some x)
  unfolding delete_document
  find_document-delete_document h answer actor dry_run w doc there =
      elim (Option-cases (find_document d w.documents)) [
        | inl gone ↦ rw gone (doc, there)
        | inr (x, found) ↦ rw found ((HasRow-found h answer actor dry_run x).at w (doc, there))
      ]
