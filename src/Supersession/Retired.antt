-- ===== src/Supersession/Retired.antt =====
-- A supersession that passes its guards finishes: the copy is retired and the survivor has its
-- memberships.
use wordsworth.Prelude.{
  ℕ, suc, String, ◌≡◌, ◌≢◌, refl, Bool, true, false, not, ◌&&◌, ◌||◌, Option, none, some, List, [],
  ◌∷◌, ◌==◌, nat_eq, string_eq, option_eq, arith, ok, contains, Runs, Runs-outcome, Runs-result,
  if◌then◌else◌, ap, sym, ◌∙◌, eq_iff,
}
use wordsworth.Json.{Fields}
use wordsworth.States.{State, is_allowed, superseded}
use wordsworth.World.{World, Document, find_document, set_document}
use wordsworth.Audit.{Host, append, current_state}
use wordsworth.Audit.Records.{current_state-append}
use wordsworth.Index
use wordsworth.Index.Laws.{lookup-delete}
use wordsworth.Dossiers.{is_member, has_dossier}
use wordsworth.Dossiers.View.{View, Shows}
use wordsworth.Pipeline.{transition, dossiers_of}
use wordsworth.Pipeline.Transitions.{transition_moves}
use wordsworth.Deletion.Gone.{reached}
use wordsworth.Supersession.{
  move_memberships, drop_entry, retire_copy, supersede_found, supersede, supersession_payload,
  claimed_key, Supersession,
}
use wordsworth.Supersession.Moved.{move_memberships-Runs, passed_on, contains-dossiers_of}

find_document-id :
    (i : ℕ) (ds : List Document) (d : Document) → find_document i ds ≡ some d → d.id ≡ i
unfolding find_document
find_document-id i [] d e = cc
find_document-id i (x ∷ ds) d e = ground (arith, find_document-id i ds d)

abbrev pointed : ℕ → Document → Document
pointed survivor d = record d { superseded_by = some survivor }

abbrev map_document : (Document → Document) → Option Document → Option Document
map_document f none = none
map_document f (some d) = some (f d)

find_document-set_document :
    (c s e : ℕ) (ds : List Document)
    → find_document e (set_document c (pointed s) ds)
      ≡ (if c == e then map_document (pointed s) (find_document e ds) else find_document e ds)
unfolding find_document set_document
find_document-set_document c s e [] = ground arith
find_document-set_document c s e (d ∷ ds) = ground (arith, find_document-set_document c s e ds)

-- The view after a move of a document, and without an entry of the index.
abbrev in_state : ℕ → State → View → View
in_state d to v = record v { state = λ e. if d == e then some to else v.state e }

abbrev without_entry : ℕ → View → View
without_entry d v = record v { index = Index.delete d v.index }

transition-Runs :
    (h : Host) (v : View) (d : ℕ) (to : State) (step : String) (p : Fields)
    → is_allowed (v.state d) to ≡ true
    → Runs (Shows v) (transition h d to step p) (λ r w. Shows (in_state d to v) w)
unfolding append
transition-Runs h v d to step p edge = Runs-outcome (transition h d to step p) λ w x.
    let goes : is_allowed (current_state d w) to ≡ true =
      ap (λ s. is_allowed s to) (x.same_state d) ∙ edge in
    let moved = transition_moves h d to step p w goes in
    rw moved (
      (
        _,
        refl,
        record {
          same_documents = x.same_documents;
          same_index = x.same_index;
          same_state = λ e.
              current_state-append h d (current_state d w) to step p w e ∙ rw (x.same_state e) refl;
          same_member = x.same_member;
          same_dossiers = x.same_dossiers;
        },
      ))

drop_entry-Runs :
    (v : View) (d : ℕ)
    → Runs (Shows v) (drop_entry (some reached) d) (λ b w. Shows (without_entry d v) w)
unfolding drop_entry current_state
drop_entry-Runs v d = record {
  runs = λ w x. (
    _,
    record w { calls = suc w.calls; index = Index.delete d w.index },
    refl,
    record {
      same_documents = x.same_documents;
      same_index = ap (Index.delete d) x.same_index;
      same_state = x.same_state;
      same_member = x.same_member;
      same_dossiers = x.same_dossiers;
    },
  );
}

-- The copy is superseded and points to the survivor; the survivor is a member of what either was a
-- member of, the copy of nothing; the copy's entry in the index is gone. Nothing else changed there.
pub record Retired (c s : ℕ) (before after : World) : Type 0 where
  pub states :
      (e : ℕ) → current_state e after ≡ (if c == e then some superseded else current_state e before)
  pub memberships :
      (i e : ℕ)
      → is_member i e after.members ≡ (
          if e == s
          then is_member i s before.members || is_member i c before.members
          else if e == c
          then false
          else is_member i e before.members)
  pub entries :
      (e : ℕ) → Index.lookup e after.index ≡ (if c == e then none else Index.lookup e before.index)
  pub pointers :
      (e : ℕ)
      → find_document e after.documents ≡ (
          if c == e
          then map_document (pointed s) (find_document e before.documents)
          else find_document e before.documents)

abbrev pub view_of : World → View
view_of w = record {
  documents = w.documents;
  index = w.index;
  state = λ e. current_state e w;
  member = λ i e. is_member i e w.members;
  has_dossier = λ i. has_dossier i w.dossiers;
}

pub view_of-Shows : (w : World) → Shows (view_of w) w
view_of-Shows w = record {
  same_documents = refl;
  same_index = refl;
  same_state = λ e. refl;
  same_member = λ i e. refl;
  same_dossiers = λ i. refl;
}

passed_all :
    (m : ℕ → ℕ → Bool) (f : ℕ → Bool) (c s i e : ℕ)
    → f i ≡ m i c
    → (if e == s then m i e || f i else if e == c then m i e && not (f i) else m i e)
      ≡ (if e == s then m i s || m i c else if e == c then false else m i e)
passed_all m f c s i e all = ground (arith, all)

module _ (h : Host) (c s : ℕ) (actor : String) (batch as_object : Option String) where
  retire_copy-Runs :
      (w : World) (d : Document) (t u : State)
      → c ≢ s
      → find_document s w.documents ≡ some d
      → d.superseded_by ≡ none
      → current_state s w ≡ some t
      → current_state c w ≡ some u
      → is_allowed (some u) superseded ≡ true
      → ((i : ℕ) → is_member i c w.members ≡ true → has_dossier i w.dossiers ≡ true)
      → (r : Supersession) × ((retire_copy h (some reached) c s actor batch as_object w).0 ≡ ok r)
        × (r.done ≡ true)
        × Retired c s w (retire_copy h (some reached) c s actor batch as_object w).1
  unfolding retire_copy transition
  retire_copy-Runs w d t u differ there live here gone edge filed =
      let (b, dropped, x) =
        Runs-result (drop_entry (some reached) c) w (drop_entry-Runs (view_of w) c)
          (view_of-Shows w) in
      let w1 = (drop_entry (some reached) c w).1 in
      let ds = dossiers_of c w1 in
      let (n, moved, y) =
        Runs-result (move_memberships h ds c s actor batch) w1
          (move_memberships-Runs h c s actor batch ds (without_entry c (view_of w)) d t u differ
            there live here gone (λ i k. filed i (sym (contains-dossiers_of c i w1) ∙ k)))
          x in
      let w2 = (move_memberships h ds c s actor batch w1).1 in
      let p = supersession_payload h s actor batch as_object in
      let (o, went, z) =
        Runs-result (transition h c superseded "supersede" p) w2
          (transition-Runs h (passed_on c s ds (without_entry c (view_of w))) c superseded
            "supersede" p (ap (λ o. is_allowed o superseded) gone ∙ edge))
          y in
      let listed : (i : ℕ) → contains ds i ≡ is_member i c w.members =
        λ i. contains-dossiers_of c i w1 in
      (
        record { done = true; moved = n.0; removed = n.1; index_entry = Index.exists c w.index },
        rw (moved, went) refl,
        refl,
        rw (moved, went)
            (record {
              states = z.same_state;
              memberships = λ i e.
                  z.same_member i e
                  ∙ passed_all (λ j f. is_member j f w.members) (contains ds) c s i e (listed i);
              entries = λ e. ap (Index.lookup e) z.same_index ∙ lookup-delete c e w.index;
              pointers = λ e.
                  ap (λ ds. find_document e (set_document c (pointed s) ds)) z.same_documents
                  ∙ find_document-set_document c s e w.documents;
            }),
      )

  -- A supersession of a live copy by another live document of the object finishes, where both have
  -- records, the copy may go to `superseded`, the dossiers that it is a member of are there and the
  -- index answers: the copy is superseded and names
  -- the survivor, its entry in the index is gone, and the survivor is a member of the dossiers that
  -- either was a member of, the copy of none; no other document's state, dossiers, entry or row
  -- changed.
  pub supersede-Retired :
      (w : World) (copy survivor : Document) (t u : State)
      → c ≢ s
      → find_document c w.documents ≡ some copy
      → find_document s w.documents ≡ some survivor
      → claimed_key as_object copy.object_key ≡ survivor.object_key
      → copy.superseded_by ≡ none
      → survivor.superseded_by ≡ none
      → current_state s w ≡ some t
      → current_state c w ≡ some u
      → is_allowed (some u) superseded ≡ true
      → ((i : ℕ) → is_member i c w.members ≡ true → has_dossier i w.dossiers ≡ true)
      → (r : Supersession) × ((supersede h (some reached) c s actor batch as_object w).0 ≡ ok r)
        × (r.done ≡ true)
        × Retired c s w (supersede h (some reached) c s actor batch as_object w).1
  unfolding supersede supersede_found
  supersede-Retired w copy survivor t u differ hc hs key lc ls st su edge filed =
      let distinct : (c == s) ≡ false = ground (arith, differ) in
      let same : (claimed_key as_object copy.object_key == survivor.object_key) ≡ true =
        (eq_iff _ _).1 key in
      let is_c = find_document-id c w.documents copy hc in
      let is_s = find_document-id s w.documents survivor hs in
      rw (hc, hs, is_c, is_s, distinct, same, ls, lc)
        (rw (is_c, is_s) (retire_copy-Runs w survivor t u differ hs ls st su edge filed))
