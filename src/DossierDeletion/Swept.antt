-- ===== src/DossierDeletion/Swept.antt =====
-- The first loop of the deletion of a dossier finishes, where the members are there and the index
-- answers.
use wordsworth.Prelude.{
  ℕ, suc, String, ◌≡◌, ◌≢◌, refl, true, false, ◌==◌, nat_eq, List, [], ◌∷◌, arith, inl, inr, ◌∙◌,
  sym, ap, nat_beq_iff, Bool-cases, ◌⊎◌, some, contains, Returns, Returns-bind, Returns-same, pure,
  ◌>>◌,
}
use wordsworth.States.{State, deleted}
use wordsworth.World.{World, Document, find_document}
use wordsworth.Audit.{Host, current_state}
use wordsworth.Deletion.{delete_document}
use wordsworth.Deletion.Gone.{reached, delete_document-Emptied}
use wordsworth.Deletion.Others.{others-delete_document}
use wordsworth.Deletion.Rows.{find_document-delete_document}
use wordsworth.DossierDeletion.{held_elsewhere, sorted_in, delete_member, delete_members}

-- The document has a row and a state.
pub record IsThere (d : ℕ) (w : World) : Type 0 where
  pub doc : Document
  pub state : State
  pub found : find_document d w.documents ≡ some doc
  pub in_state : current_state d w ≡ some state

module _ (h : Host) (i : ℕ) (actor : String) where
  -- What the deletion of one document does to the states and the rows, where it is there.
  record Deletes (d : ℕ) (w v : World) : Type 0 where
    members : v.members ≡ w.members
    itself : current_state d v ≡ some deleted
    others : (e : ℕ) → e ≢ d → current_state e v ≡ current_state e w
    rows :
        (e : ℕ) (doc : Document)
        → find_document e w.documents ≡ some doc
        → (x : Document) × (find_document e v.documents ≡ some x)

  delete_document-Deletes :
      (d : ℕ) (w : World)
      → IsThere d w
      → Returns (delete_document h reached d actor false) w (λ c v. Deletes d w v)
  delete_document-Deletes d w x =
      let (c, returned, emptied) =
        delete_document-Emptied h d x.state actor x.doc w x.found x.in_state in
      record {
        value = c;
        returned = returned;
        holds = record {
          members = (others-delete_document h reached d actor false (suc d) w (λ k. omega arith)).0;
          itself = emptied.unindexed.in_state;
          others = λ e n. (others-delete_document h reached d actor false e w n).1;
          rows = λ e doc. find_document-delete_document e d h reached actor false w doc;
        };
      }

  -- The documents are there, those that are deleted stay so, and of the list `ds` those are deleted
  -- that no other dossier holds.
  pub record Swept (all ds : List ℕ) (w v : World) : Type 0 where
    pub there : (e : ℕ) → contains all e ≡ true → IsThere e v
    pub members : v.members ≡ w.members
    pub stays : (e : ℕ) → current_state e w ≡ some deleted → current_state e v ≡ some deleted
    pub deletes :
        (e : ℕ)
        → contains ds e ≡ true
        → (current_state e v ≡ some deleted) ⊎ (held_elsewhere e i w.members ≡ true)

  unfoldable pub Ready : List ℕ → World → Type 0
  Ready all w = (e : ℕ) → contains all e ≡ true → IsThere e w

  -- A deletion leaves every document there.
  IsThere-Deletes : (d e : ℕ) (w v : World) → Deletes d w v → IsThere e w → IsThere e v
  IsThere-Deletes d e w v x y =
      let (row, found) = x.rows e y.doc y.found in
      elim (Bool-cases (e == d)) [
        | inl same ↦
            let k : e ≡ d = (nat_beq_iff e d).0 same in
            record {
              doc = row;
              state = deleted;
              found = found;
              in_state = ap (λ n. current_state n v) k ∙ x.itself;
            }
        | inr other ↦ record {
          doc = row;
          state = y.state;
          found = found;
          in_state = x.others e (λ k. cc (other, (nat_beq_iff e d).1 k)) ∙ y.in_state;
        }
      ]

  deleted-Deletes :
      (d e : ℕ) (w v : World)
      → Deletes d w v
      → current_state e w ≡ some deleted
      → current_state e v ≡ some deleted
  deleted-Deletes d e w v x at = elim (Bool-cases (e == d)) [
    | inl same ↦
        let k : e ≡ d = (nat_beq_iff e d).0 same in ap (λ n. current_state n v) k ∙ x.itself
    | inr other ↦ x.others e (λ k. cc (other, (nat_beq_iff e d).1 k)) ∙ at
  ]

  delete_member-Swept :
      (all : List ℕ) (d : ℕ) (w : World)
      → Ready all w
      → IsThere d w
      → Returns (delete_member h reached i actor false d) w (λ kept v. Swept all (d ∷ []) w v)
  unfolding delete_member Ready
  delete_member-Swept all d w ready x = elim (Bool-cases (held_elsewhere d i w.members)) [
    | inl held ↦
        Returns-same (delete_member h reached i actor false d) (pure true) w w (rw held refl)
          (record {
            value = true;
            returned = refl;
            holds = record {
              there = ready;
              members = refl;
              stays = λ e at. at;
              deletes = λ e k. inr (ap (λ n. held_elsewhere n i w.members) (only d e k) ∙ held);
            };
          })
    | inr alone ↦
        Returns-same (delete_member h reached i actor false d)
          (delete_document h reached d actor false >> pure false) w w (rw alone refl)
          (Returns-bind (delete_document h reached d actor false) (λ c. pure false) w
            (delete_document-Deletes d w x)
            λ c y. record {
              value = false;
              returned = refl;
              holds = record {
                there = λ e k. IsThere-Deletes d e w _ y (ready e k);
                members = y.members;
                stays = λ e. deleted-Deletes d e w _ y;
                deletes = λ e k. inl (
                    ap (λ n. current_state n (delete_document h reached d actor false w).1)
                      (only d e k)
                    ∙ y.itself);
              };
            })
  ]
    where
      only : (d e : ℕ) → contains (d ∷ []) e ≡ true → e ≡ d
      only d e k = ground arith

  pub delete_members-Swept :
      (all ds : List ℕ) (w : World)
      → Ready all w
      → ((e : ℕ) → contains ds e ≡ true → contains all e ≡ true)
      → Returns (delete_members h reached i actor false ds) w (λ r v. Swept all ds w v)
  unfolding delete_members Ready
  delete_members-Swept all [] w ready within = record {
    value = ([], []);
    returned = refl;
    holds = record {
      there = ready;
      members = refl;
      stays = λ e at. at;
      deletes = λ e k. absurd (cc k);
    };
  }
  delete_members-Swept all (d ∷ ds) w ready within =
      Returns-bind (delete_member h reached i actor false d) _ w
        (delete_member-Swept all d w ready (ready d (within d (ground arith))))
        λ kept x.
          Returns-bind (delete_members h reached i actor false ds) (λ r. pure (sorted_in kept d r))
            (delete_member h reached i actor false d w).1
            (delete_members-Swept all ds (delete_member h reached i actor false d w).1 x.there
              (λ e k. within e (ground (arith, k))))
            λ r y. record {
              value = sorted_in kept d r;
              returned = refl;
              holds = record {
                there = y.there;
                members = y.members ∙ x.members;
                stays = λ e at. y.stays e (x.stays e at);
                deletes = λ e k. elim (Bool-cases (e == d)) [
                  | inl same ↦ elim (x.deletes e (ground (arith, same))) [
                    | inl now ↦ inl (y.stays e now)
                    | inr held ↦ inr held
                  ]
                  | inr other ↦ elim (y.deletes e (ground (arith, k, other))) [
                    | inl now ↦ inl now
                    | inr held ↦ inr (ap (held_elsewhere e i) (sym x.members) ∙ held)
                  ]
                ];
              };
            }
