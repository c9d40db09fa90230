-- ===== src/DossierDeletion/Kept.antt =====
-- What another dossier holds stays, whatever the deletion of a dossier does.
use wordsworth.Prelude.{
  ℕ, String, ◌≡◌, ◌≢◌, refl, Bool, true, false, not, ◌==◌, nat_eq, List, [], ◌∷◌, Outcome, Keeps,
  Keeps-bind, Keeps-modify, Keeps-pure, keeps_rules, arith, inl, inr, Option-cases, ◌∙◌, sym,
  nat_beq_iff, Bool-cases, ◌⊎◌, modify, keep, ok, err, continue, pure,
}
use wordsworth.World.{World, Exc}
use wordsworth.Audit.{Host, append, current_state}
use wordsworth.Audit.Records.{current_state-event}
use wordsworth.Tokens.Registry.{is_registered}
use wordsworth.Pipeline.{anonymized_text}
use wordsworth.Dossiers.{is_member, without_member, by_id}
use wordsworth.Dossiers.Events.{dossier_deleted}
use wordsworth.Dossiers.Membership.{documents_in}
use wordsworth.Deletion.{delete_document, mapping_of}
use wordsworth.Deletion.Frame.{mapping_of-delete_document}
use wordsworth.Deletion.Others.{others-delete_document}
use wordsworth.DossierDeletion.{
  DossierDeletionReport, held_elsewhere, delete_member, delete_members, reindex, release_member,
  release_members, remove_dossier, without_dossier, delete_found, delete_dossier,
}

held_elsewhere_lem :
    (i j e : ℕ) (ms : List (ℕ × ℕ)) → j ≢ i → is_member j e ms ≡ true → held_elsewhere e i ms ≡ true
unfolding held_elsewhere is_member
held_elsewhere_lem i j e [] n h = absurd (cc h)
held_elsewhere_lem i j e ((k, d) ∷ ms) n h = ground (arith, held_elsewhere_lem i j e ms n)

is_member-without_member :
    (i j d e : ℕ) (ms : List (ℕ × ℕ))
    → j ≢ i
    → is_member j e (without_member i d ms) ≡ is_member j e ms
unfolding is_member without_member
is_member-without_member i j d e [] n = refl
is_member-without_member i j d e ((k, x) ∷ ms) n =
    ground (arith, is_member-without_member i j d e ms n)

-- The document is in the dossier, with the state and the text that it had before; the pseudonyms that
-- were registered for it still are, with their mappings.
pub record IsUntouched (before : World) (j e : ℕ) (w : World) : Type 0 where
  pub member : is_member j e w.members ≡ true
  pub state : current_state e w ≡ current_state e before
  pub text : anonymized_text e w.texts ≡ anonymized_text e before.texts
  pub mapped :
      (p : String)
      → (is_registered e p before.pseudonyms ≡ false)
        ⊎ ((is_registered e p w.pseudonyms ≡ true)
            × (mapping_of p w.mappings ≡ mapping_of p before.mappings))

mapped_first :
    (e : ℕ) (p : String) (w : World)
    → (is_registered e p w.pseudonyms ≡ false)
      ⊎ ((is_registered e p w.pseudonyms ≡ true)
          × (mapping_of p w.mappings ≡ mapping_of p w.mappings))
mapped_first e p w = elim (Bool-cases (is_registered e p w.pseudonyms)) [
  | inl there ↦ inr (there, refl)
  | inr never ↦ inl never
]

module _ (h : Host) (answer : ℕ → Outcome Exc (Unit {0})) (i : ℕ) (actor : String) (before : World)
    (j e : ℕ) (n : j ≢ i) where
  abbrev Untouched : World → Type 0
  Untouched w = IsUntouched before j e w

  another_deleted :
      (dry_run : Bool) (d : ℕ) (w : World)
      → e ≢ d
      → Untouched w
      → Untouched (delete_document h answer d actor dry_run w).1
  another_deleted dry_run d w other x =
      let (members, state, text) = others-delete_document h answer d actor dry_run e w other in
      record {
        member = rw members x.member;
        state = state ∙ x.state;
        text = text ∙ x.text;
        mapped = λ p. elim (x.mapped p) [
          | inl never ↦ inl never
          | inr (there, same) ↦
              let (still, kept) =
                mapping_of-delete_document h answer d actor dry_run e p w other there in
              inr (still, kept ∙ same)
        ];
      }

  -- Where no other dossier holds the document, it is not the one that stays.
  deleted_alone :
      (dry_run : Bool) (d : ℕ) (w : World)
      → Untouched w
      → held_elsewhere d i w.members ≡ false
      → Untouched (delete_document h answer d actor dry_run w).1
  deleted_alone dry_run d w x alone = elim (Bool-cases (e == d)) [
    | inl same ↦
        let k : e ≡ d = (nat_beq_iff e d).0 same in
        let held : held_elsewhere d i w.members ≡ true =
          rw (sym k) (held_elsewhere_lem i j e w.members n x.member) in
        absurd (cc (held, alone))
    | inr other ↦ another_deleted dry_run d w (λ k. cc (other, (nat_beq_iff e d).1 k)) x
  ]

  -- What follows a deletion returns and changes nothing.
  returned :
      {A : Type 0} (r : Outcome Exc A) (b : Bool) (w : World)
      → Untouched w
      → Untouched (continue {B = Bool} r (λ a. pure b) w).1
  returned (ok a) b w x = x
  returned (err o) b w x = x

  Untouched-member :
      (dry_run : Bool) (d : ℕ) → Keeps Untouched (delete_member h answer i actor dry_run d)
  unfolding delete_member
  Untouched-member dry_run d = record {
    at = λ w x. elim (Bool-cases (held_elsewhere d i w.members)) [
      | inl held ↦ rw held x
      | inr alone ↦ rw alone (
          returned (delete_document h answer d actor dry_run w).0 false
            (delete_document h answer d actor dry_run w).1 (deleted_alone dry_run d w x alone))
    ];
  }

  Untouched-members :
      (dry_run : Bool) (ds : List ℕ) → Keeps Untouched (delete_members h answer i actor dry_run ds)
  unfolding delete_members
  Untouched-members dry_run [] = search keeps_rules
  Untouched-members dry_run (d ∷ ds) =
      Keeps-bind (delete_member h answer i actor dry_run d) _ (Untouched-member dry_run d) λ r.
        Keeps-bind (delete_members h answer i actor dry_run ds) _ (Untouched-members dry_run ds)
          (search keeps_rules)

  Untouched-unfiled :
      (d : ℕ)
      → Keeps {E = Exc} Untouched
          (modify (λ w. record w { members = without_member i d w.members }))
  unfolding current_state
  Untouched-unfiled d = record {
    at = λ w x. record {
      member = is_member-without_member i j d e w.members n ∙ x.member;
      state = x.state;
      text = x.text;
      mapped = x.mapped;
    };
  }

  -- What changes none of the tables of documents keeps it.
  carry :
      (v w : World)
      → w.members ≡ v.members
      → w.trail ≡ v.trail
      → w.texts ≡ v.texts
      → w.pseudonyms ≡ v.pseudonyms
      → w.mappings ≡ v.mappings
      → Untouched v
      → Untouched w
  unfolding current_state
  carry v w a b c p m x = record {
    member = rw a x.member;
    state = rw b x.state;
    text = rw c x.text;
    mapped = λ q. rw (p, m) (x.mapped q);
  }

  Untouched-reindex :
      (released : Bool) (d : ℕ) → Keeps Untouched (reindex h answer i actor released d)
  unfolding reindex
  Untouched-reindex released d = record {
    at = λ w x.
        carry w _ (ground arith) (ground arith) (ground arith) (ground arith) (ground arith) x;
  }

  Untouched-recorded :
      (d : ℕ) (released : Bool) → Keeps Untouched (dossier_deleted h d i actor released)
  unfolding dossier_deleted append
  Untouched-recorded d released = record {
    at = λ w x. elim (Option-cases (current_state d w)) [
      | inl gone ↦ rw gone x
      | inr (s, here) ↦ rw here (record {
        member = x.member;
        state = current_state-event h d s _ _ w e here ∙ x.state;
        text = x.text;
        mapped = x.mapped;
      })
    ];
  }

  Untouched-release :
      (gone : List ℕ) (d : ℕ) → Keeps Untouched (release_member h answer i actor gone d)
  unfolding release_member
  Untouched-release gone d =
      search (keeps_rules, Untouched-unfiled, Untouched-reindex, Untouched-recorded) depth 8

  Untouched-releases :
      (gone ds : List ℕ) → Keeps Untouched (release_members h answer i actor gone ds)
  unfolding release_members
  Untouched-releases gone [] = search keeps_rules
  Untouched-releases gone (d ∷ ds) =
      Keeps-bind (release_member h answer i actor gone d) _ (Untouched-release gone d)
        λ u. Untouched-releases gone ds

  Untouched-removal :
      (ds : List ℕ) (r : DossierDeletionReport)
      → Keeps Untouched (remove_dossier h answer i actor ds r)
  unfolding remove_dossier
  Untouched-removal ds r =
      Keeps-bind (release_members h answer i actor r.deleted ds) _ (Untouched-releases r.deleted ds)
        λ u.
          Keeps-bind (modify (λ w. record w { topics = keep (λ t. not (t.1 == i)) w.topics })) _
            (Keeps-modify (λ w. record w { topics = keep (λ t. not (t.1 == i)) w.topics })
              (λ w x. carry w _ refl refl refl refl refl x))
            λ u.
              Keeps-bind (modify (λ w. record w { dossiers = without_dossier i w.dossiers })) _
                (Keeps-modify (λ w. record w { dossiers = without_dossier i w.dossiers })
                  (λ w x. carry w _ refl refl refl refl refl x))
                λ v. Keeps-pure r

  Untouched-found :
      (dry_run : Bool) (ds : List ℕ) → Keeps Untouched (delete_found h answer i actor dry_run ds)
  unfolding delete_found
  Untouched-found dry_run ds = search (keeps_rules, Untouched-members, Untouched-removal) depth 10

module _ (h : Host) (answer : ℕ → Outcome Exc (Unit {0})) (i : ℕ) (actor : String) where
  -- A document that is in another dossier stays in it, in its state and with its text, its pseudonyms
  -- and their mappings, whatever the deletion of a dossier does, also where it raises.
  pub delete_dossier-IsUntouched :
      (dry_run : Bool) (j e : ℕ) (w : World)
      → j ≢ i
      → is_member j e w.members ≡ true
      → IsUntouched w j e (delete_dossier h answer i actor dry_run w).1
  unfolding delete_dossier
  delete_dossier-IsUntouched dry_run j e w n there =
      let here : IsUntouched w j e w = record {
        member = there;
        state = refl;
        text = refl;
        mapped = λ p. mapped_first e p w;
      } in
      elim (Option-cases (by_id i w.dossiers)) [
        | inl gone ↦ rw gone here
        | inr (x, found) ↦
            rw found (
              (Untouched-found h answer i actor w j e n dry_run (documents_in (i ∷ []) w)).at w
                here)
      ]
