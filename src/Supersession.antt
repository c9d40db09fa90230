-- ===== src/Supersession.antt =====
-- src/wordsworth/supersession.py: a copy of a document gives way to the document that survives.
pub mod Audited
pub mod Moved
pub mod Retired
use Prim.Native.String.{◌++◌ as append_string}
use wordsworth.Prelude.{
  ℕ, ◌+◌, String, Bool, false, true, not, Option, none, some, List, [], ◌∷◌, ◌==◌, nat_eq,
  string_eq, option_eq, Outcome, pure, raise, gets, modify, require, ◌>>=◌, ◌>>◌, continue,
  if◌then◌else◌,
}
use wordsworth.Json.{str, str_or_null, Fields, end, field, put}
use wordsworth.States.{superseded}
use wordsworth.World.{World, Db, Exc, Document, find_document, set_document, supersession_error}
use wordsworth.Audit.{Host}
use wordsworth.Index
use wordsworth.Dossiers.Membership.{add, remove}
use wordsworth.Pipeline.{transition, dossiers_of}
use wordsworth.Pipeline.Services.{call}
use wordsworth.Deletion.{int}

-- What `supersede` reports.
pub record Supersession : Type 0 where
  pub done : Bool
  pub moved : ℕ
  pub removed : ℕ
  pub index_entry : Bool

abbrev pub nothing_done : Supersession
nothing_done = record { done = false; moved = 0; removed = 0; index_entry = false }

-- `as_object or copy.object_key`
abbrev pub claimed_key : Option String → String → String
claimed_key none key = key
claimed_key (some k) key = if k == "" then key else k

-- `bool(index.delete(str(copy.id))) if index is not None else False`; the index answers the call or
-- fails.
unfoldable pub drop_entry : Option (ℕ → Outcome Exc (Unit {0})) → ℕ → Db Bool
drop_entry none copy_id = pure false
drop_entry (some answer) copy_id = do
  call answer
  there ← gets (λ w. Index.exists copy_id w.index)
  modify (λ w. record w { index = Index.delete copy_id w.index })
  pure there

module _ (h : Host) where
  -- `f"superseded by {survivor.id}"`
  unfoldable pub supersession_reason : ℕ → String
  supersession_reason survivor_id = append_string "superseded by " (h.uuid_text survivor_id)

  -- The loop over the copy's dossiers.
  unfoldable pub move_memberships : List ℕ → ℕ → ℕ → String → Option String → Db (ℕ × ℕ)
  unfolding supersession_reason
  move_memberships [] copy_id survivor_id actor batch = pure (0, 0)
  move_memberships (i ∷ is) copy_id survivor_id actor batch = do
    moved ← add h i survivor_id actor batch
    removed ← remove h i copy_id actor (supersession_reason survivor_id) batch
    (m, r) ← move_memberships is copy_id survivor_id actor batch
    pure (int moved + m, int removed + r)

  unfoldable pub supersession_payload : ℕ → String → Option String → Option String → Fields
  unfolding put str_or_null
  supersession_payload survivor_id actor batch as_object =
      let base =
        field "superseded_by" (str (h.uuid_text survivor_id))
          (field "actor" (str actor) (field "batch" (str_or_null batch) end)) in
      elim as_object [
        | none ↦ base
        | some k ↦ if k == "" then base else put "as_object" (str k) base
      ]

  -- What follows the guards.
  unfoldable pub retire_copy :
      Option (ℕ → Outcome Exc (Unit {0}))
      → ℕ
      → ℕ
      → String
      → Option String
      → Option String
      → Db Supersession
  unfolding drop_entry move_memberships supersession_payload set_document dossiers_of
  retire_copy index copy_id survivor_id actor batch as_object = do
    entry ← drop_entry index copy_id
    ds ← gets (dossiers_of copy_id)
    (m, r) ← move_memberships ds copy_id survivor_id actor batch
    transition h copy_id superseded "supersede"
        (supersession_payload survivor_id actor batch as_object)
    modify (λ w. record w {
      documents =
          set_document copy_id (λ d. record d { superseded_by = some survivor_id }) w.documents;
    })
    pure (record { done = true; moved = m; removed = r; index_entry = entry })

  -- The guards on the two rows, and the supersession.
  unfoldable pub supersede_found :
      Option (ℕ → Outcome Exc (Unit {0}))
      → Document
      → Document
      → String
      → Option String
      → Option String
      → Db Supersession
  unfolding retire_copy
  supersede_found index copy survivor actor batch as_object = do
    require (not (copy.id == survivor.id)) supersession_error
    require (claimed_key as_object copy.object_key == survivor.object_key) supersession_error
    require (survivor.superseded_by == none) supersession_error
    elim copy.superseded_by [
      | some s ↦ if s == survivor.id then pure nothing_done else raise supersession_error
      | none ↦ retire_copy index copy.id survivor.id actor batch as_object
    ]

  unfoldable pub supersede :
      Option (ℕ → Outcome Exc (Unit {0}))
      → ℕ
      → ℕ
      → String
      → Option String
      → Option String
      → Db Supersession
  unfolding find_document supersede_found
  supersede index copy_id survivor_id actor batch as_object = do
    copy ← gets (λ w. find_document copy_id w.documents)
    survivor ← gets (λ w. find_document survivor_id w.documents)
    elim copy [
      | none ↦ raise supersession_error
      | some c ↦ elim survivor [
        | none ↦ raise supersession_error
        | some s ↦ supersede_found index c s actor batch as_object
      ]
    ]
