-- ===== src/Dossiers/Membership.antt =====
-- `add`, `remove`, `rename` and `homeless` of src/wordsworth/dossiers.py.
use wordsworth.Prelude.{
  ℕ, String, Bool, true, false, not, ◌||◌, Option, none, some, List, [], ◌∷◌, ◌++◌, ◌==◌, nat_eq,
  string_eq, option_eq, ok, err, pure, raise, gets, modify, require, ◌>>=◌, ◌>>◌, length, keep,
  contains, map, if◌then◌else◌,
}
use wordsworth.Text.{is_blank, strip}
use wordsworth.World.{
  World, Db, Document, Dossier, find_document, savepoint, catch_integrity, dossier_error,
  integrity_error,
}
use wordsworth.Audit.{Host}
use wordsworth.Dossiers.{is_member, has_dossier, without_member, by_name, checked_name}
use wordsworth.Dossiers.Events.{membership_changed, name_of, renamed}

-- `doc is not None and doc.superseded_by is not None`
unfoldable pub is_superseded : ℕ → World → Bool
unfolding find_document
is_superseded document_id w = elim (find_document document_id w.documents) [
  | none ↦ false
  | some d ↦ not (d.superseded_by == none)
]

abbrev is_row : Option Document → Bool
is_row none = false
is_row (some d) = true

-- What the table refuses: a pair that is there (its primary key), and one whose dossier or document
-- is not (its foreign keys).
unfoldable pub refuses : ℕ → ℕ → World → Bool
unfolding is_member has_dossier find_document
refuses dossier_id document_id w =
    is_member dossier_id document_id w.members
    || not (has_dossier dossier_id w.dossiers)
    || not (is_row (find_document document_id w.documents))

-- The insert of a membership, which the keys of its table may refuse.
unfoldable pub insert_member : ℕ → ℕ → Db Bool
unfolding refuses
insert_member dossier_id document_id w =
    if refuses dossier_id document_id w
    then (err integrity_error, w)
    else (ok true, record w { members = w.members ++ (dossier_id, document_id) ∷ [] })

unfoldable pub set_name : ℕ → String → List Dossier → List Dossier
set_name i n [] = []
set_name i n (d ∷ ds) = (if d.id == i then record d { name = n } else d) ∷ set_name i n ds

-- A name that another dossier holds.
unfoldable pub clashes : String → ℕ → World → Bool
unfolding by_name
clashes n i w = elim (by_name n w.dossiers) [ none ↦ false | some d ↦ not (d.id == i) ]

module _ (h : Host) where
  unfoldable pub add : ℕ → ℕ → String → Option String → Db Bool
  unfolding is_superseded is_member insert_member name_of
  add dossier_id document_id actor batch = do
    superseded ← gets (is_superseded document_id)
    require (not superseded) dossier_error
    existing ← gets (λ w. is_member dossier_id document_id w.members)
    if existing then pure false else do
      inserted ← catch_integrity (savepoint (insert_member dossier_id document_id)) (pure false)
      if not inserted then pure false else do
        name ← gets (name_of h dossier_id)
        membership_changed h document_id dossier_id name "dossier_added" actor none batch
        pure true

  unfoldable pub remove : ℕ → ℕ → String → String → Option String → Db Bool
  unfolding is_blank is_member without_member name_of
  remove dossier_id document_id actor reason batch = do
    require (not (is_blank reason)) dossier_error
    existing ← gets (λ w. is_member dossier_id document_id w.members)
    if not existing then pure false else do
      name ← gets (name_of h dossier_id)
      modify (λ w. record w { members = without_member dossier_id document_id w.members })
      membership_changed h document_id dossier_id name "dossier_removed" actor (some reason) batch
      pure true

  unfoldable pub rename : String → String → String → Bool → Db Dossier
  unfolding strip by_name checked_name clashes set_name renamed
  rename old new actor has_stream = do
    found ← gets (λ w. by_name (strip old) w.dossiers)
    elim found [
      | none ↦ raise dossier_error
      | some d ↦ do
        n ← checked_name new
        clash ← gets (clashes n d.id)
        require (not clash) dossier_error
        modify (λ w. record w { dossiers = set_name d.id n w.dossiers })
        renamed h has_stream (record d { name = n }) (strip old) actor
        pure (record d { name = n })
    ]

-- `homeless`: how many documents belong to no dossier.
unfoldable pub homeless : World → ℕ
homeless w =
    length (keep (λ (d : Document). not (contains (map (λ m. m.1) w.members) d.id)) w.documents)

-- `documents_in`
unfoldable pub documents_in : List ℕ → World → List ℕ
documents_in ids w = map (λ m. m.1) (keep (λ (m : ℕ × ℕ). contains ids m.0) w.members)
