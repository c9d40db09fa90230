-- ===== src/Deletion/Originals.antt =====
-- Stored bytes that another document claims survive a deletion; the trail stays audited; a dry run
-- changes nothing.
use wordsworth.Prelude.{
  ℕ, String, ◌≡◌, refl, Bool, true, false, not, ◌&&◌, ◌==◌, nat_eq, string_eq, option_eq, Option,
  some, Outcome, arith, Bool-cases, inl, inr, Keeps, keeps_rules, Leads, Leads-bind, Leads-Keeps,
  gets, if◌then◌else◌, eq_iff, Option-cases,
}
use wordsworth.States.{deleted, state_eq}
use wordsworth.World.{World, Exc, Bytes, Document, find_document}
use wordsworth.Audit.{Host, append, current_state}
use wordsworth.Objects
use wordsworth.Pipeline.{transition}
use wordsworth.Deletion.{
  object_claimed_elsewhere, release_token, remove_entry, remove_object, remove_rows,
  record_deletion, finish_deletion, delete_found, delete_document, DeletionCounts, counted,
}
use wordsworth.Deletion.Steps.{KeptByRows, remove_rows-Keeps}
use wordsworth.Deletion.Tables.{get_raw-delete}

module _ (d : ℕ) (k : String) (bytes : Option Bytes) where
  abbrev HasBytes : World → Type 0
  HasBytes w = Objects.get_raw k w.objects ≡ bytes

  -- Another document that is not deleted claims the key.
  abbrev IsClaimed : World → Type 0
  IsClaimed w = (object_claimed_elsewhere d k w ≡ true) × HasBytes w

  IsClaimed-rows : KeptByRows d IsClaimed
  unfolding object_claimed_elsewhere release_token
  IsClaimed-rows = record { on_texts = λ w x. x; on_release = λ p w x. x; on_grants = λ w gs x. x }

  remove_entry-IsClaimed :
      (answer : ℕ → Outcome Exc (Unit {0})) (dry_run : Bool)
      → Keeps IsClaimed (remove_entry answer dry_run d)
  unfolding remove_entry object_claimed_elsewhere
  remove_entry-IsClaimed answer dry_run = record { at = λ w x. ground arith }

  drop_other :
      (key : String) (w : World)
      → IsClaimed w
      → IsClaimed (
          if Objects.exists key w.objects && not (object_claimed_elsewhere d key w)
          then record w { objects = Objects.delete key w.objects }
          else w)
  unfolding object_claimed_elsewhere
  drop_other key w x = elim (Bool-cases (key == k)) [
    | inl same ↦ rw ((eq_iff key k).0 same, x.0) (ground (arith, x))
    | inr other ↦ ground (arith, x, other, get_raw-delete key k w.objects)
  ]

  remove_object-IsClaimed :
      (dry_run : Bool) (key : String) → Keeps IsClaimed (remove_object dry_run d key)
  unfolding remove_object
  remove_object-IsClaimed true key = record { at = λ w x. x }
  remove_object-IsClaimed false key = record { at = λ w x. drop_other key w x }

  finish_deletion-HasBytes :
      (h : Host) (dry_run already : Bool) (key actor : String) (c : DeletionCounts)
      → Keeps HasBytes (finish_deletion h dry_run already d key actor c)
  unfolding finish_deletion record_deletion transition append
  finish_deletion-HasBytes h dry_run already key actor c = record { at = λ w x. ground arith }

  delete_found-Leads :
      (h : Host) (answer : ℕ → Outcome Exc (Unit {0})) (actor : String) (dry_run : Bool)
      (doc : Document)
      → Leads IsClaimed HasBytes (delete_found h answer d actor dry_run doc)
  unfolding delete_found
  delete_found-Leads h answer actor dry_run doc =
      Leads-bind (gets λ w. current_state d w == some deleted) _ weaker (search keeps_rules)
        λ already.
          Leads-bind (remove_entry answer dry_run d) _ weaker
            (remove_entry-IsClaimed answer dry_run)
            λ entry.
              Leads-bind (remove_object dry_run d doc.object_key) _ weaker
                (remove_object-IsClaimed dry_run doc.object_key)
                λ object.
                  Leads-bind (remove_rows dry_run d)
                    (λ rows.
                      finish_deletion h dry_run already d doc.object_key actor
                        (counted entry object rows))
                    weaker (remove_rows-Keeps IsClaimed d IsClaimed-rows dry_run)
                    λ rows. Leads-Keeps _ weaker (
                      finish_deletion-HasBytes h dry_run already doc.object_key actor
                        (counted entry object rows))
    where
      weaker : (w : World) → IsClaimed w → HasBytes w
      weaker w x = x.1

module _ (h : Host) (answer : ℕ → Outcome Exc (Unit {0})) (d : ℕ) (actor : String) where
  -- The bytes of an object that another document claims, which is not deleted, are what they were
  -- after a deletion, also where it raises.
  pub get_raw-delete_document :
      (dry_run : Bool) (k : String) (w : World)
      → object_claimed_elsewhere d k w ≡ true
      → Objects.get_raw k (delete_document h answer d actor dry_run w).1.objects
        ≡ Objects.get_raw k w.objects
  unfolding delete_document
  get_raw-delete_document dry_run k w x = elim (Option-cases (find_document d w.documents)) [
    | inl gone ↦ rw gone refl
    | inr (doc, found) ↦ rw found (
        (delete_found-Leads d k (Objects.get_raw k w.objects) h answer actor dry_run doc).leads w
          (x, refl))
  ]
