-- ===== src/Deletion/Gone.antt =====
-- A deletion that reaches the index finishes, and leaves nothing of the document's content.
use wordsworth.Prelude.{
  ℕ, suc, String, ◌≡◌, refl, Bool, true, false, not, ◌&&◌, ◌==◌, nat_eq, string_eq, option_eq,
  Option, none, some, List, [], ◌∷◌, Outcome, ok, arith, Bool-cases, inl, inr, ◌⊎◌, Runs, Runs-bind,
  Runs-result, ap, ◌>>◌, pure, if◌then◌else◌, eq_iff, ◌∙◌, keep, contains, beq_refl, continue,
}
use wordsworth.States.{State, deleted, state_eq, is_allowed}
use wordsworth.Json.{Fields}
use wordsworth.World.{AuditRecord, World, Exc, Document, GrantRow, find_document}
use wordsworth.Audit.{Host, append, current_state}
use wordsworth.Tokens.Registry.{registered_tokens}
use wordsworth.Index
use wordsworth.Pipeline.{transition, anonymized_text}
use wordsworth.Pipeline.Transitions.{current_state-transition, transition_stays, transition_moves}
use wordsworth.Deletion.{
  is_shared, is_some_mapping, is_some_text, int, mapping_of, without_text, without_token,
  names_document, release_token, release_tokens, remove_entry, remove_object, remove_grants,
  remove_rows, record_deletion, finish_deletion, counted, delete_found, delete_document,
  DeletionCounts,
}
use wordsworth.Deletion.Tables.{text-without_text}

-- An index that answers every call.
abbrev pub reached : ℕ → Outcome Exc (Unit {0})
reached n = ok tt

exists-delete : (d : ℕ) (es : List _) → Index.exists d (Index.delete d es) ≡ false
unfolding Index.exists Index.delete
exists-delete d [] = refl
exists-delete d (e ∷ es) = ground (arith, exists-delete d es)

-- The texts of the list but for one.
abbrev but : String → List String → List String
but p qs = keep (λ q. not (q == p)) qs

registered_tokens-without_token :
    (d : ℕ) (p : String) (rows : List (ℕ × String))
    → registered_tokens d (without_token d p rows) ≡ but p (registered_tokens d rows)
unfolding registered_tokens without_token
registered_tokens-without_token d p [] = refl
registered_tokens-without_token d p ((e, q) ∷ rows) =
    ground (arith, registered_tokens-without_token d p rows)

-- Every text of the one list is in the other.
covers : List String → List String → Bool
covers ps [] = true
covers ps (q ∷ qs) = contains ps q && covers ps qs

covers-but :
    (p : String) (ps qs : List String) → covers (p ∷ ps) qs ≡ true → covers ps (but p qs) ≡ true
unfolding covers
covers-but p ps [] c = refl
covers-but p ps (q ∷ qs) c = ground (arith, covers-but p ps qs)

covers-nil : (qs : List String) → covers [] qs ≡ true → qs ≡ []
unfolding covers
covers-nil [] c = refl
covers-nil (q ∷ qs) c = cc

covers-cons : (p : String) (ps qs : List String) → covers ps qs ≡ true → covers (p ∷ ps) qs ≡ true
unfolding covers
covers-cons p ps [] c = refl
covers-cons p ps (q ∷ qs) c = ground (arith, covers-cons p ps qs)

covers_self : (qs : List String) → covers qs qs ≡ true
unfolding covers
covers_self [] = refl
covers_self (q ∷ qs) = ground (arith, covers-cons q qs qs (covers_self qs), eq_iff q q)

grants_gone :
    (d : ℕ) (gs : List GrantRow)
    → keep (names_document d) (keep (λ g. not (names_document d g)) gs) ≡ []
grants_gone d [] = refl
grants_gone d (g ∷ gs) = elim (Bool-cases (names_document d g)) [
  | inl his ↦ rw his (grants_gone d gs)
  | inr other ↦ rw (other, other) (grants_gone d gs)
]

module _ (d : ℕ) (s : State) where
  -- The document is in the state, and not in the index.
  pub record Unindexed (w : World) : Type 0 where
    pub in_state : current_state d w ≡ some s
    pub no_entry : Index.exists d w.index ≡ false

  pub record Emptied (w : World) : Type 0 where
    pub unindexed : Unindexed w
    pub no_text : anonymized_text d w.texts ≡ none
    pub no_tokens : registered_tokens d w.pseudonyms ≡ []
    pub no_grants : keep (names_document d) w.grants ≡ []

  remove_entry-Runs :
      Runs (λ w. current_state d w ≡ some s) (remove_entry reached false d) (λ b w. Unindexed w)
  unfolding remove_entry current_state
  remove_entry-Runs = record {
    runs = λ w h. elim (Bool-cases (Index.exists d w.index)) [
      | inl there ↦ (
        true,
        record w { calls = suc (suc w.calls); index = Index.delete d w.index },
        rw there refl,
        record { in_state = h; no_entry = exists-delete d w.index },
      )
      | inr absent ↦ (
        false,
        record w { calls = suc w.calls },
        rw absent refl,
        record { in_state = h; no_entry = absent },
      )
    ];
  }

  remove_object-Runs :
      (key : String) → Runs Unindexed (remove_object false d key) (λ b w. Unindexed w)
  unfolding remove_object current_state
  remove_object-Runs key = record {
    runs = λ w u. (
      _,
      (remove_object false d key w).1,
      refl,
      record { in_state = ground (arith, u.in_state); no_entry = ground (arith, u.no_entry) },
    );
  }

  -- The rows that are left when the tokens of the list are released.
  record Releasing (ps : List String) (w : World) : Type 0 where
    unindexed : Unindexed w
    no_text : anonymized_text d w.texts ≡ none
    within : covers ps (registered_tokens d w.pseudonyms) ≡ true

  release_one :
      (p : String) (ps : List String) (w : World)
      → Releasing (p ∷ ps) w
      → Releasing ps (release_token d p w)
  unfolding release_token current_state
  release_one p ps w r = record {
    unindexed = record { in_state = r.unindexed.in_state; no_entry = r.unindexed.no_entry };
    no_text = r.no_text;
    within =
        rw (registered_tokens-without_token d p w.pseudonyms)
          (covers-but p ps (registered_tokens d w.pseudonyms) r.within);
  }

  release_tokens-Runs :
      (ps : List String) → Runs (Releasing ps) (release_tokens false d ps) (λ n w. Releasing [] w)
  unfolding release_tokens
  release_tokens-Runs [] = record { runs = λ w r. (0, w, refl, r) }
  release_tokens-Runs (p ∷ ps) = record {
    runs = λ w r.
        let (n, t, e, q) =
          (release_tokens-Runs ps).runs (release_token d p w) (release_one p ps w r) in
        (
          if not (is_shared d p w.pseudonyms) && is_some_mapping (mapping_of p w.mappings)
              then suc n
              else n,
          t,
          rw e refl,
          q,
        );
  }

  remove_grants-Runs :
      (text : ℕ) (ps : List String) (n : ℕ)
      → Runs (Releasing []) (remove_grants false d text ps n) (λ r w. Emptied w)
  unfolding remove_grants current_state
  remove_grants-Runs text ps n = record {
    runs = λ w r. (
      _,
      record w { grants = keep (λ g. not (names_document d g)) w.grants },
      refl,
      record {
        unindexed = record { in_state = r.unindexed.in_state; no_entry = r.unindexed.no_entry };
        no_text = r.no_text;
        no_tokens = covers-nil _ r.within;
        no_grants = grants_gone d w.grants;
      },
    );
  }

  remove_rows-Runs : Runs Unindexed (remove_rows false d) (λ r w. Emptied w)
  unfolding remove_rows current_state
  remove_rows-Runs = record {
    runs = λ w u.
        let ps = registered_tokens d w.pseudonyms in
        let rest =
          Runs-bind (release_tokens false d ps) _ (release_tokens-Runs ps)
            (remove_grants-Runs (int (is_some_text (anonymized_text d w.texts))) ps) in
        rest.runs (record w { texts = without_text d w.texts })
          (record {
            unindexed = record { in_state = u.in_state; no_entry = u.no_entry };
            no_text = rw (text-without_text d d w.texts, beq_refl d) refl;
            within = covers_self ps;
          });
  }

to_deleted : (s : State) → (some s ≡ some deleted) ⊎ (is_allowed (some s) deleted ≡ true)
unfolding is_allowed
to_deleted s = ground arith

module _ (h : Host) (d : ℕ) (s : State) where
  -- The deletion of a document that has a state is recorded, or was.
  transition_to_deleted :
      (step : String) (p : Fields) (w : World)
      → current_state d w ≡ some s
      → (r : Option AuditRecord) × ((transition h d deleted step p w).0 ≡ ok r)
        × (current_state d (transition h d deleted step p w).1 ≡ some deleted)
  unfolding append
  transition_to_deleted step p w e = elim (to_deleted s) [
    | inl there ↦ rw (transition_stays h d deleted step p w (e ∙ there)) (none, refl, e ∙ there)
    | inr edge ↦
        let allowed : is_allowed (current_state d w) deleted ≡ true = rw e edge in
        (
          _,
          ap (λ r. r.0) (transition_moves h d deleted step p w allowed),
          current_state-transition h d deleted step p w d ∙ rw (allowed, beq_refl d) refl,
        )
  ]

  transition-Emptied :
      (step : String) (p : Fields) (w : World)
      → Emptied d s w
      → Emptied d deleted (transition h d deleted step p w).1
  unfolding transition append
  transition-Emptied step p w e = record {
    unindexed = record {
      in_state = (transition_to_deleted step p w e.unindexed.in_state).2;
      no_entry = ground (arith, e.unindexed.no_entry);
    };
    no_text = ground (arith, e.no_text);
    no_tokens = ground (arith, e.no_tokens);
    no_grants = ground (arith, e.no_grants);
  }

  -- The rows of the documents are no part of it.
  Emptied-documents :
      (w : World) (ds : List Document) → Emptied d s w → Emptied d s (record w { documents = ds })
  unfolding current_state
  Emptied-documents w ds e = record {
    unindexed = record { in_state = e.unindexed.in_state; no_entry = e.unindexed.no_entry };
    no_text = e.no_text;
    no_tokens = e.no_tokens;
    no_grants = e.no_grants;
  }

  transition-Runs :
      (step : String) (p : Fields)
      → Runs (Emptied d s) (transition h d deleted step p >> pure tt) (λ u w. Emptied d deleted w)
  transition-Runs step p = record {
    runs = λ w e.
        let (r, returned, at) = transition_to_deleted step p w e.unindexed.in_state in
        (tt, (transition h d deleted step p w).1, rw returned refl, transition-Emptied step p w e);
  }

  record_deletion-Runs :
      (key actor : String) (already : Bool) (c : DeletionCounts)
      → Runs (Emptied d s) (record_deletion h d key actor already c) (λ u w. Emptied d deleted w)
  unfolding record_deletion
  record_deletion-Runs key actor true c = transition-Runs "delete" _
  record_deletion-Runs key actor false c = record {
    runs = λ w e. (transition-Runs "delete" _).runs _ (Emptied-documents w _ e);
  }

  finish_deletion-Runs :
      (already : Bool) (key actor : String) (c : DeletionCounts)
      → Runs
          (Emptied d s)
          (finish_deletion h false already d key actor c)
          (λ c w. Emptied d deleted w)
  unfolding finish_deletion
  finish_deletion-Runs already key actor c =
      Runs-bind (record_deletion h d key actor already c) (λ u. pure c)
        (record_deletion-Runs key actor already c) λ u. record { runs = λ v k. (c, v, refl, k) }

  delete_found-Runs :
      (actor : String) (doc : Document)
      → Runs
          (λ w. current_state d w ≡ some s)
          (delete_found h reached d actor false doc)
          (λ c w. Emptied d deleted w)
  unfolding delete_found
  delete_found-Runs actor doc = record {
    runs = λ w e.
        let already = current_state d w == some deleted in
        let key = doc.object_key in
        (Runs-bind (remove_entry reached false d) _ (remove_entry-Runs d s) λ entry.
            Runs-bind (remove_object false d key) _ (remove_object-Runs d s key) λ object.
              Runs-bind (remove_rows false d)
                (λ rows. finish_deletion h false already d key actor (counted entry object rows))
                (remove_rows-Runs d s)
                λ rows. finish_deletion-Runs already key actor (counted entry object rows)).runs
          w e;
  }

  -- A deletion of a document that is there, where the index answers, finishes: the document is in
  -- the state `deleted`, and it has no text, no pseudonyms, no grants and no entry in the index.
  pub delete_document-Emptied :
      (actor : String) (doc : Document) (w : World)
      → find_document d w.documents ≡ some doc
      → current_state d w ≡ some s
      → (c : DeletionCounts) × ((delete_document h reached d actor false w).0 ≡ ok c)
        × Emptied d deleted (delete_document h reached d actor false w).1
  unfolding delete_document
  delete_document-Emptied actor doc w found e =
      rw (found, continue)
        (Runs-result (delete_found h reached d actor false doc) w (delete_found-Runs actor doc) e)
