-- ===== src/Dossiers/Refined.antt =====
-- `add` and `remove` of src/wordsworth/dossiers.py on the abstract view.
use wordsworth.Prelude.{
  ℕ, String, ◌≡◌, refl, Bool, true, false, not, ◌&&◌, ◌||◌, Option, none, some, [], ◌∷◌, ◌++◌, ◌==◌,
  nat_eq, arith, ok, Bool-cases, inl, inr, Runs, Runs-outcome, Runs-result, ◌>>=◌, ◌>>◌, gets, pure,
  ap, ◌∙◌, sym,
}
use wordsworth.Text.{is_blank}
use wordsworth.States.{State}
use wordsworth.World.{World, Db, Document, find_document}
use wordsworth.Audit.{Host, current_state}
use wordsworth.Dossiers.{is_member, has_dossier, without_member}
use wordsworth.Dossiers.Events.{membership_changed, name_of}
use wordsworth.Dossiers.Membership.{add, remove, is_superseded, insert_member, refuses}
use wordsworth.Dossiers.View.{
  View, Shows, Shows-member, with_pair, without_pair, is_member-append, is_member-without_member,
  membership_changed-Runs,
}

-- The record of a change, and the answer.
abbrev answered : Host → ℕ → ℕ → String → String → Option String → Option String → Db Bool
unfolding name_of
answered h dossier doc step actor reason batch = do
  name ← gets (name_of h dossier)
  membership_changed h doc dossier name step actor reason batch
  pure true

answered-Runs :
    (h : Host) (v : View) (dossier doc : ℕ) (s : State) (step actor : String)
    (reason batch : Option String)
    → v.state doc ≡ some s
    → Runs
        (Shows v)
        (answered h dossier doc step actor reason batch)
        (λ b w. (b ≡ true) × Shows v w)
unfolding answered
answered-Runs h v dossier doc s step actor reason batch here =
    Runs-outcome (answered h dossier doc step actor reason batch) λ w x.
      let (u, done, y) =
        Runs-result _ w
          (membership_changed-Runs h v dossier doc s (name_of h dossier w) step actor reason batch
            here)
          x in
      (true, rw done refl, rw done (refl, y))

already_in :
    (v : View) (dossier doc i e : ℕ)
    → v.member dossier doc ≡ true
    → v.member i e ≡ (v.member i e || (v.has_dossier dossier && i == dossier && e == doc))
already_in v dossier doc i e there = ground (arith, there)

-- Nothing is put into a dossier that is not there.
unknown_dossier :
    (v : View) (dossier doc i e : ℕ)
    → v.has_dossier dossier ≡ false
    → v.member i e ≡ (v.member i e || (v.has_dossier dossier && i == dossier && e == doc))
unknown_dossier v dossier doc i e unknown = ground (arith, unknown)

already_out :
    (v : View) (dossier doc i e : ℕ)
    → v.member dossier doc ≡ false
    → v.member i e ≡ (v.member i e && not (i == dossier && e == doc))
already_out v dossier doc i e absent = ground (arith, absent)

module _ (h : Host) (dossier doc : ℕ) (actor : String) (batch : Option String) (w : World) where
  abbrev inserted : World
  inserted = record w { members = w.members ++ (dossier, doc) ∷ [] }

  abbrev taken_out : World
  taken_out = record w { members = without_member dossier doc w.members }

  add_there :
      is_superseded doc w ≡ false
      → is_member dossier doc w.members ≡ true
      → add h dossier doc actor batch w ≡ (ok false, w)
  unfolding add
  add_there live there = rw (live, there) refl

  add_unknown :
      is_superseded doc w ≡ false
      → is_member dossier doc w.members ≡ false
      → has_dossier dossier w.dossiers ≡ false
      → add h dossier doc actor batch w ≡ (ok false, w)
  unfolding add insert_member refuses
  add_unknown live absent unknown = rw (live, absent, absent, unknown) refl

  add_new :
      (d : Document)
      → is_superseded doc w ≡ false
      → is_member dossier doc w.members ≡ false
      → has_dossier dossier w.dossiers ≡ true
      → find_document doc w.documents ≡ some d
      → add h dossier doc actor batch w
        ≡ answered h dossier doc "dossier_added" actor none batch inserted
  unfolding add insert_member refuses
  add_new d live absent known row = rw (live, absent, absent, known, row) refl

  remove_absent :
      (reason : String)
      → is_blank reason ≡ false
      → is_member dossier doc w.members ≡ false
      → remove h dossier doc actor reason batch w ≡ (ok false, w)
  unfolding remove
  remove_absent reason said absent = rw (said, absent) refl

  remove_there :
      (reason : String)
      → is_blank reason ≡ false
      → is_member dossier doc w.members ≡ true
      → remove h dossier doc actor reason batch w
        ≡ answered h dossier doc "dossier_removed" actor (some reason) batch taken_out
  unfolding remove
  remove_there reason said there = rw (said, there) refl

module _ (h : Host) (v : View) (dossier doc : ℕ) (actor : String) (batch : Option String) where
  abbrev pub Added : Bool → World → Type 0
  Added b w =
      (b ≡ (v.has_dossier dossier && not (v.member dossier doc)))
      × Shows (with_pair dossier doc v) w

  abbrev pub Removed : Bool → World → Type 0
  Removed b w = (b ≡ v.member dossier doc) × Shows (without_pair dossier doc v) w

  not_superseded :
      (d : Document) (w : World)
      → Shows v w
      → find_document doc v.documents ≡ some d
      → d.superseded_by ≡ none
      → is_superseded doc w ≡ false
  unfolding is_superseded
  not_superseded d w x there live =
      let found : find_document doc w.documents ≡ some d =
        ap (find_document doc) x.same_documents ∙ there in
      rw (found, is_superseded, live) refl

  inserted-Shows :
      (w : World)
      → v.has_dossier dossier ≡ true
      → Shows v w
      → Shows (with_pair dossier doc v) (inserted h dossier doc actor batch w)
  unfolding current_state
  inserted-Shows w known x = record {
    same_documents = x.same_documents;
    same_index = x.same_index;
    same_state = x.same_state;
    same_member =
        λ i e. is_member-append i e dossier doc w.members ∙ rw (x.same_member i e, known) refl;
    same_dossiers = x.same_dossiers;
  }

  taken_out-Shows :
      (w : World)
      → Shows v w
      → Shows (without_pair dossier doc v) (taken_out h dossier doc actor batch w)
  unfolding current_state
  taken_out-Shows w x = record {
    same_documents = x.same_documents;
    same_index = x.same_index;
    same_state = x.same_state;
    same_member =
        λ i e. is_member-without_member i e dossier doc w.members ∙ rw (x.same_member i e) refl;
    same_dossiers = x.same_dossiers;
  }

  -- `add` puts the pair into the relation, and answers whether it was new.
  pub add-Runs :
      (d : Document) (s : State)
      → find_document doc v.documents ≡ some d
      → d.superseded_by ≡ none
      → v.state doc ≡ some s
      → Runs (Shows v) (add h dossier doc actor batch) Added
  add-Runs d s there live here = Runs-outcome (add h dossier doc actor batch) λ w x.
      let ready = not_superseded d w x there live in
      elim (Bool-cases (is_member dossier doc w.members)) [
        | inl member ↦
            let known = sym (x.same_member dossier doc) ∙ member in
            (
              false,
              ap (λ r. r.0) (add_there h dossier doc actor batch w ready member),
              rw (add_there h dossier doc actor batch w ready member, known)
                  (ground arith, Shows-member v _ w x λ i e. already_in v dossier doc i e known),
            )
        | inr absent ↦
            let new = sym (x.same_member dossier doc) ∙ absent in
            elim (Bool-cases (has_dossier dossier w.dossiers)) [
              | inr unknown ↦
                  let none_there = sym (x.same_dossiers dossier) ∙ unknown in
                  (
                    false,
                    ap (λ r. r.0) (add_unknown h dossier doc actor batch w ready absent unknown),
                    rw (add_unknown h dossier doc actor batch w ready absent unknown) (
                      rw none_there refl,
                      Shows-member v _ w x λ i e. unknown_dossier v dossier doc i e none_there,
                    ),
                  )
              | inl known ↦
                  let is_there = sym (x.same_dossiers dossier) ∙ known in
                  let row : find_document doc w.documents ≡ some d =
                    ap (find_document doc) x.same_documents ∙ there in
                  let (b, done, q) =
                    Runs-result _ (inserted h dossier doc actor batch w)
                      (answered-Runs h (with_pair dossier doc v) dossier doc s "dossier_added" actor
                        none batch here)
                      (inserted-Shows w is_there x) in
                  rw (add_new h dossier doc actor batch w d ready absent known row)
                    (b, done, (rw (is_there, new) q.0, q.1))
            ]
      ]

  -- `remove` takes the pair out of the relation, and answers whether it was there.
  pub remove-Runs :
      (reason : String) (s : State)
      → is_blank reason ≡ false
      → v.state doc ≡ some s
      → Runs (Shows v) (remove h dossier doc actor reason batch) Removed
  remove-Runs reason s said here = Runs-outcome (remove h dossier doc actor reason batch) λ w x.
      elim (Bool-cases (is_member dossier doc w.members)) [
        | inl member ↦
            let known = sym (x.same_member dossier doc) ∙ member in
            let (b, done, q) =
              Runs-result _ (taken_out h dossier doc actor batch w)
                (answered-Runs h (without_pair dossier doc v) dossier doc s "dossier_removed" actor
                  (some reason) batch here)
                (taken_out-Shows w x) in
            rw (remove_there h dossier doc actor batch w reason said member)
              (b, done, (rw known q.0, q.1))
        | inr absent ↦
            let new = sym (x.same_member dossier doc) ∙ absent in
            rw (remove_absent h dossier doc actor batch w reason said absent) (
              false,
              refl,
              (rw new refl, Shows-member v _ w x λ i e. already_out v dossier doc i e new),
            )
      ]

  -- On the view in which membership is a relation, `add` puts a pair in, if its dossier is there, and
  -- answers whether the dossier is there and the pair was new, and `remove` takes it out and answers
  -- whether it was there; documents, states, dossiers and the index stay. This is for a document that
  -- has a state, a live one for `add`, and a reason that is not blank for `remove`.
  pub changes-Refine :
      (d : Document) (s : State) (reason : String) (w : World)
      → find_document doc v.documents ≡ some d
      → d.superseded_by ≡ none
      → v.state doc ≡ some s
      → is_blank reason ≡ false
      → Shows v w
      → ((b : Bool) × ((add h dossier doc actor batch w).0 ≡ ok b)
          × Added b (add h dossier doc actor batch w).1)
        × ((b : Bool) × ((remove h dossier doc actor reason batch w).0 ≡ ok b)
            × Removed b (remove h dossier doc actor reason batch w).1)
  changes-Refine d s reason w there live here said x = (
    Runs-result _ w (add-Runs d s there live here) x,
    Runs-result _ w (remove-Runs reason s said here) x,
  )
