-- ===== src/Dossiers/Events.antt =====
-- src/wordsworth/dossier_events.py: the record that a membership change or a rename leaves.
use wordsworth.Prelude.{
  ℕ, String, Bool, Option, none, some, [], ◌∷◌, ◌++◌, ◌==◌, nat_eq, string_eq, pure, raise, gets,
  modify, ◌>>=◌, ◌>>◌, length, keep, if◌then◌else◌,
}
use wordsworth.Json.{str, num, Fields, end, field, put}
use wordsworth.World.{World, Db, Dossier, value_error, missing_audit_stream}
use wordsworth.Audit.{Host, append, current_state}
use wordsworth.Dossiers.{by_id}

-- The fields that a membership record carries besides the dossier and the actor: each only if it is
-- given and not empty.
abbrev optional_text : String → Option String → Fields → Fields
optional_text k none fs = fs
optional_text k (some s) fs = if s == "" then fs else put k (str s) fs

module _ (h : Host) where
  -- The dossier's name, and else its id.
  unfoldable pub name_of : ℕ → World → String
  unfolding by_id
  name_of dossier_id w = elim (by_id dossier_id w.dossiers) [
    | some d ↦ d.name
    | none ↦ h.uuid_text dossier_id
  ]

  unfoldable pub membership_payload : ℕ → String → String → Option String → Option String → Fields
  unfolding put
  membership_payload dossier_id dossier actor reason batch = optional_text "batch" batch (
      optional_text "reason" reason (
        field "dossier" (str dossier)
          (field "dossier_id" (str (h.uuid_text dossier_id)) (field "actor" (str actor) end))))

  -- `membership_changed`: an event on the document's own chain, with `from == to`.
  unfoldable pub membership_changed :
      ℕ → ℕ → String → String → String → Option String → Option String → Db (Unit {0})
  unfolding current_state membership_payload
  membership_changed document_id dossier_id dossier step actor reason batch = do
    state ← gets (current_state document_id)
    elim state [
      | none ↦ raise value_error
      | some s ↦ do
        append h document_id (some s) s step
            (membership_payload dossier_id dossier actor reason batch)
        pure tt
    ]

  -- `dossier_deleted`
  unfoldable pub dossier_deleted : ℕ → ℕ → String → Bool → Db (Unit {0})
  unfolding current_state
  dossier_deleted document_id dossier_id actor released = do
    state ← gets (current_state document_id)
    elim state [
      | none ↦ raise value_error
      | some s ↦ do
        append h document_id (some s) s "dossier-deleted" (
            field "dossier_id" (str (h.uuid_text dossier_id)) (
              field "actor" (str actor)
                (field "action" (str (if released then "released" else "deleted")) end)))
        pure tt
    ]

  -- `renamed`; the stream is the world's, or none was passed.
  unfoldable pub renamed : Bool → Dossier → String → String → Db (Unit {0})
  renamed has_stream d old actor =
      if has_stream
      then modify (λ w. record w {
        lifecycle =
            w.lifecycle
            ++ record {
              action = "dossier_renamed";
              actor = actor;
              payload = field "dossier_id" (str (h.uuid_text d.id)) (
                  field "old" (str old) (
                    field "new" (str d.name)
                      (field "documents" (num (length (keep (λ m. m.0 == d.id) w.members))) end)));
            }
              ∷ [];
      })
      else raise missing_audit_stream
