-- ===== src/Deletion/Others.antt =====
-- A deletion leaves the other documents' states, texts and memberships as they are.
use wordsworth.Prelude.{
  ℕ, String, ◌≡◌, ◌≢◌, refl, Bool, true, false, ◌==◌, nat_eq, string_eq, option_eq, List, Option,
  Outcome, Keeps, keeps_rules, Keeps-modify, arith, inl, inr, Option-cases, ◌∙◌, nat_beq_iff,
  Bool-cases,
}
use wordsworth.Json.{Fields}
use wordsworth.States.{State, state_eq}
use wordsworth.World.{World, Exc, Document, find_document}
use wordsworth.Audit.{Host, append, current_state}
use wordsworth.Pipeline.{transition, anonymized_text}
use wordsworth.Pipeline.Transitions.{current_state-transition}
use wordsworth.Deletion.{
  release_token, remove_entry, remove_object, remove_rows, record_deletion, finish_deletion,
  delete_found, delete_document, DeletionCounts,
}
use wordsworth.Deletion.Steps.{KeptByRows, remove_rows-Keeps}
use wordsworth.Deletion.Tables.{text-without_text}

module _ (h : Host) (d : ℕ) (to : State) (step : String) (p : Fields) (w : World) where
  transition-members : (transition h d to step p w).1.members ≡ w.members
  unfolding transition append
  transition-members = ground arith

  transition-texts : (transition h d to step p w).1.texts ≡ w.texts
  unfolding transition append
  transition-texts = ground arith

module _ (e d : ℕ) (n : e ≢ d) (ms : List (ℕ × ℕ)) (s : Option State) (t : Option String) where
  -- The memberships, and the other document's state and text.
  record IsOther (w : World) : Type 0 where
    members : w.members ≡ ms
    state : current_state e w ≡ s
    text : anonymized_text e w.texts ≡ t

  differs : (d == e) ≡ false
  differs = elim (Bool-cases (d == e)) [
    | inl same ↦ let k : d ≡ e = (nat_beq_iff d e).0 same in absurd (omega arith)
    | inr other ↦ other
  ]

  -- What changes none of the three keeps it.
  carry :
      (v w : World)
      → w.members ≡ v.members
      → w.trail ≡ v.trail
      → w.texts ≡ v.texts
      → IsOther v
      → IsOther w
  unfolding current_state
  carry v w a b c x = record { members = a ∙ x.members; state = rw b x.state; text = rw c x.text }

  IsOther-KeptByRows : KeptByRows d IsOther
  unfolding release_token current_state
  IsOther-KeptByRows = record {
    on_texts = λ w x. record {
      members = x.members;
      state = x.state;
      text = text-without_text d e w.texts ∙ rw differs x.text;
    };
    on_release = λ p w x. carry w _ refl refl refl x;
    on_grants = λ w gs x. carry w _ refl refl refl x;
  }

  IsOther-entry :
      (answer : ℕ → Outcome Exc (Unit {0})) (dry_run : Bool)
      → Keeps IsOther (remove_entry answer dry_run d)
  unfolding remove_entry
  IsOther-entry answer dry_run = record {
    at = λ w x. carry w _ (ground arith) (ground arith) (ground arith) x;
  }

  IsOther-object : (dry_run : Bool) (key : String) → Keeps IsOther (remove_object dry_run d key)
  unfolding remove_object
  IsOther-object dry_run key = record {
    at = λ w x. carry w _ (ground arith) (ground arith) (ground arith) x;
  }

  IsOther-transition :
      (h : Host) (to : State) (step : String) (p : Fields)
      → Keeps IsOther (transition h d to step p)
  IsOther-transition h to step p = record {
    at = λ w x. record {
      members = transition-members h d to step p w ∙ x.members;
      state = current_state-transition h d to step p w e ∙ rw differs x.state;
      text = rw (transition-texts h d to step p w) x.text;
    };
  }

  IsOther-record :
      (h : Host) (key actor : String) (already : Bool) (c : DeletionCounts)
      → Keeps IsOther (record_deletion h d key actor already c)
  unfolding record_deletion current_state
  IsOther-record h key actor true c = search (keeps_rules, IsOther-transition) depth 8
  IsOther-record h key actor false c =
      search (keeps_rules, IsOther-transition, Keeps-modify, carried) depth 8
    where
      carried : (ds : List Document) (w : World) → IsOther w → IsOther (record w { documents = ds })
      carried ds w x = carry w _ refl refl refl x

  IsOther-finish :
      (h : Host) (dry_run already : Bool) (key actor : String) (c : DeletionCounts)
      → Keeps IsOther (finish_deletion h dry_run already d key actor c)
  unfolding finish_deletion
  IsOther-finish h dry_run already key actor c = search (keeps_rules, IsOther-record) depth 6

  IsOther-rows : (dry_run : Bool) → Keeps IsOther (remove_rows dry_run d)
  IsOther-rows = remove_rows-Keeps IsOther d IsOther-KeptByRows

  IsOther-found :
      (h : Host) (answer : ℕ → Outcome Exc (Unit {0})) (actor : String) (dry_run : Bool)
      (doc : Document)
      → Keeps IsOther (delete_found h answer d actor dry_run doc)
  unfolding delete_found
  IsOther-found h answer actor dry_run doc =
      search (keeps_rules, IsOther-entry, IsOther-object, IsOther-rows, IsOther-finish) depth 14

module _ (h : Host) (answer : ℕ → Outcome Exc (Unit {0})) (d : ℕ) (actor : String) (dry_run : Bool)
    (e : ℕ) (w : World) where
  -- Whatever a deletion does, the memberships are as before, and so are another document's state and
  -- text.
  pub others-delete_document :
      e ≢ d
      → ((delete_document h answer d actor dry_run w).1.members ≡ w.members)
        × (current_state e (delete_document h answer d actor dry_run w).1 ≡ current_state e w)
        × (anonymized_text e (delete_document h answer d actor dry_run w).1.texts
            ≡ anonymized_text e w.texts)
  unfolding delete_document
  others-delete_document n = elim (Option-cases (find_document d w.documents)) [
    | inl gone ↦ rw gone (refl, refl, refl)
    | inr (doc, found) ↦
        let kept =
          (IsOther-found e d n w.members (current_state e w) (anonymized_text e w.texts) h answer
              actor dry_run doc).at
            w (record { members = refl; state = refl; text = refl }) in
        rw found (kept.members, kept.state, kept.text)
  ]
