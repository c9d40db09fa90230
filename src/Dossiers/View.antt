-- ===== src/Dossiers/View.antt =====
-- The abstract view of a world that the dossier operations work on: membership as a relation
-- between dossiers and documents, whatever order its rows are in.
use wordsworth.Prelude.{
  ℕ, String, ◌≡◌, refl, Bool, not, ◌&&◌, ◌||◌, Option, some, List, [], ◌∷◌, ◌++◌, ◌==◌, nat_eq,
  arith, Runs, Runs-outcome, if◌then◌else◌, ◌∙◌,
}
use wordsworth.States.{State}
use wordsworth.World.{World, Document, IndexEntry}
use wordsworth.Audit.{Host, append, current_state}
use wordsworth.Audit.Records.{current_state-append}
use wordsworth.Dossiers.{is_member, has_dossier, without_member}
use wordsworth.Dossiers.Events.{membership_changed}

pub record View : Type 0 where
  pub documents : List Document
  pub index : List IndexEntry
  pub state : ℕ → Option State
  pub member : ℕ → ℕ → Bool
  pub has_dossier : ℕ → Bool

pub record Shows (v : View) (w : World) : Type 0 where
  pub same_documents : w.documents ≡ v.documents
  pub same_index : w.index ≡ v.index
  pub same_state : (e : ℕ) → current_state e w ≡ v.state e
  pub same_member : (i e : ℕ) → is_member i e w.members ≡ v.member i e
  pub same_dossiers : (i : ℕ) → has_dossier i w.dossiers ≡ v.has_dossier i

-- Only what the relation holds of counts.
pub Shows-member :
    (v : View) (f : ℕ → ℕ → Bool) (w : World)
    → Shows v w
    → ((i e : ℕ) → v.member i e ≡ f i e)
    → Shows (record v { member = f }) w
Shows-member v f w x same = record {
  same_documents = x.same_documents;
  same_index = x.same_index;
  same_state = x.same_state;
  same_member = λ i e. x.same_member i e ∙ same i e;
  same_dossiers = x.same_dossiers;
}

-- The pair in the relation, if its dossier is there, and out of it.
abbrev pub with_pair : ℕ → ℕ → View → View
with_pair dossier doc v = record v {
  member = λ i e. v.member i e || (v.has_dossier dossier && i == dossier && e == doc);
}

abbrev pub without_pair : ℕ → ℕ → View → View
without_pair dossier doc v = record v {
  member = λ i e. v.member i e && not (i == dossier && e == doc);
}

pub is_member-append :
    (i e j d : ℕ) (ms : List (ℕ × ℕ))
    → is_member i e (ms ++ (j, d) ∷ []) ≡ (is_member i e ms || (i == j && e == d))
unfolding is_member
is_member-append i e j d [] = ground arith
is_member-append i e j d ((k, f) ∷ ms) = ground (arith, is_member-append i e j d ms)

pub is_member-without_member :
    (i e j d : ℕ) (ms : List (ℕ × ℕ))
    → is_member i e (without_member j d ms) ≡ (is_member i e ms && not (i == j && e == d))
unfolding is_member without_member
is_member-without_member i e j d [] = refl
is_member-without_member i e j d ((k, f) ∷ ms) = ground (arith, is_member-without_member i e j d ms)

module _ (h : Host) (v : View) (dossier doc : ℕ) (s : State) where
  pub membership_changed-Runs :
      (name step actor : String) (reason batch : Option String)
      → v.state doc ≡ some s
      → Runs
          (Shows v)
          (membership_changed h doc dossier name step actor reason batch)
          (λ u w. Shows v w)
  unfolding membership_changed append current_state
  membership_changed-Runs name step actor reason batch here =
      Runs-outcome (membership_changed h doc dossier name step actor reason batch) λ w x.
        let at : current_state doc w ≡ some s = x.same_state doc ∙ here in
        (
          tt,
          rw at refl,
          record {
            same_documents = rw at x.same_documents;
            same_index = rw at x.same_index;
            same_state = λ e.
                rw at (current_state-append h doc (some s) s step _ w e ∙ same e (x.same_state e));
            same_member = λ i e. rw at (x.same_member i e);
            same_dossiers = λ i. rw at (x.same_dossiers i);
          },
        )
    where
      same :
          (e : ℕ) {o : Option State} → o ≡ v.state e → (if doc == e then some s else o) ≡ v.state e
      same e p = ground (arith, here)
