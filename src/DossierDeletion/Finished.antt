-- ===== src/DossierDeletion/Finished.antt =====
-- The deletion of a dossier whose members are there finishes, where the index answers.
use wordsworth.Prelude.{
  ℕ, String, ◌≡◌, ◌≢◌, refl, Bool, true, false, not, ◌&&◌, ◌==◌, nat_eq, List, [], ◌∷◌, ok, arith,
  inl, inr, ◌∙◌, sym, ap, if◌then◌else◌, Bool-cases, ◌⊎◌, some, none, contains, keep, map, length,
  Returns, Returns-bind, Returns-same, pure, ◌>>◌,
}
use wordsworth.Json.{Fields, str, end, field}
use wordsworth.States.{State, deleted}
use wordsworth.World.{World, Dossier}
use wordsworth.Audit.{Host, append, current_state}
use wordsworth.Audit.Records.{current_state-event}
use wordsworth.Dossiers.{is_member, without_member, by_id}
use wordsworth.Dossiers.Events.{dossier_deleted}
use wordsworth.Dossiers.Membership.{documents_in}
use wordsworth.Deletion.Gone.{reached}
use wordsworth.DossierDeletion.{
  DossierDeletionReport, held_elsewhere, delete_members, reindex, release_member, release_members,
  remove_dossier, without_dossier, delete_found, delete_dossier,
}
use wordsworth.DossierDeletion.Swept.{IsThere, Ready, delete_members-Swept}

is_member_unfiled :
    (i d e : ℕ) (ms : List (ℕ × ℕ))
    → is_member i e (without_member i d ms) ≡ true
    → (is_member i e ms ≡ true) × (contains (d ∷ []) e ≡ false)
unfolding is_member without_member
is_member_unfiled i d e [] k = absurd (cc k)
is_member_unfiled i d e ((j, x) ∷ ms) k = ground (arith, is_member_unfiled i d e ms, k)

by_id-without_dossier : (i : ℕ) (xs : List Dossier) → by_id i (without_dossier i xs) ≡ none
unfolding by_id without_dossier
by_id-without_dossier i [] = refl
by_id-without_dossier i (x ∷ xs) = ground (arith, by_id-without_dossier i xs)

keep_none : (i : ℕ) (ts : List (ℕ × ℕ)) → keep (λ t. t.1 == i) (keep (λ t. not (t.1 == i)) ts) ≡ []
keep_none i [] = refl
keep_none i ((n, j) ∷ ts) = elim (Bool-cases (j == i)) [
  | inl same ↦ rw same (keep_none i ts)
  | inr other ↦ rw (other, other) (keep_none i ts)
]

documents_in-member :
    (i e : ℕ) (ms : List (ℕ × ℕ))
    → contains (map (λ m. m.1) (keep (λ (m : ℕ × ℕ). contains (i ∷ []) m.0) ms)) e
      ≡ is_member i e ms
unfolding is_member
documents_in-member i e [] = refl
documents_in-member i e ((j, d) ∷ ms) = elim (Bool-cases (j == i)) [
  | inl same ↦ ground (arith, documents_in-member i e ms, same)
  | inr other ↦ ground (arith, documents_in-member i e ms, other)
]

-- A document that is held elsewhere is a member of another dossier.
member_elsewhere :
    (i e : ℕ) (ms : List (ℕ × ℕ))
    → held_elsewhere e i ms ≡ true
    → (j : ℕ) × (j ≢ i) × (is_member j e ms ≡ true)
unfolding held_elsewhere is_member
member_elsewhere i e [] k = absurd (cc k)
member_elsewhere i e ((j, d) ∷ ms) k = elim (Bool-cases (d == e && not (j == i))) [
  | inl here ↦ (j, (λ same. ground (arith, here, same)), ground (arith, here))
  | inr later ↦
      let (n, differs, there) = member_elsewhere i e ms (rw later at k) in
      (n, differs, ground (arith, there))
]

deleted_or_held :
    (i e : ℕ) (ms : List (ℕ × ℕ)) (P : Type 0)
    → P ⊎ (held_elsewhere e i ms ≡ true)
    → P ⊎ ((j : ℕ) × (j ≢ i) × (is_member j e ms ≡ true))
deleted_or_held i e ms P (inl p) = inl p
deleted_or_held i e ms P (inr held) = inr (member_elsewhere i e ms held)

module _ (h : Host) (i : ℕ) (actor : String) where
  -- The states stay, the dossiers too, and the listed documents leave the dossier.
  record Unfiled (ds : List ℕ) (w v : World) : Type 0 where
    states : (e : ℕ) → current_state e v ≡ current_state e w
    dossiers : v.dossiers ≡ w.dossiers
    left :
        (e : ℕ)
        → is_member i e v.members ≡ true
        → (is_member i e w.members ≡ true) × (contains ds e ≡ false)

  -- Nothing that is filed, and no record, is changed.
  record Same (w v : World) : Type 0 where
    trail : v.trail ≡ w.trail
    dossiers : v.dossiers ≡ w.dossiers
    members : v.members ≡ w.members

  reindex-Same :
      (released : Bool) (d : ℕ) (w : World)
      → Returns (reindex h reached i actor released d) w (λ u v. Same w v)
  unfolding reindex
  reindex-Same true d w = record {
    value = tt;
    returned = refl;
    holds = record { trail = refl; dossiers = refl; members = refl };
  }
  reindex-Same false d w = record {
    value = tt;
    returned = refl;
    holds = record { trail = refl; dossiers = refl; members = refl };
  }

  recorded-Returns :
      (d : ℕ) (released : Bool) (s : State) (w : World)
      → current_state d w ≡ some s
      → Returns (dossier_deleted h d i actor released) w (λ u v.
        ((e : ℕ) → current_state e v ≡ current_state e w)
        × (v.dossiers ≡ w.dossiers)
        × (v.members ≡ w.members))
  unfolding dossier_deleted append
  recorded-Returns d released s w here =
      let p : Fields = field "dossier_id" (str (h.uuid_text i)) (
        field "actor" (str actor)
          (field "action" (str (if released then "released" else "deleted")) end)) in
      Returns-same (dossier_deleted h d i actor released)
        (append h d (some s) s "dossier-deleted" p >> pure tt) w w (rw here refl)
        (record {
          value = tt;
          returned = refl;
          holds = ((λ e. current_state-event h d s "dossier-deleted" p w e here), refl, refl);
        })

  release_member-Unfiled :
      (gone : List ℕ) (d : ℕ) (s : State) (w : World)
      → current_state d w ≡ some s
      → Returns (release_member h reached i actor gone d) w (λ u v. Unfiled (d ∷ []) w v)
  unfolding release_member current_state
  release_member-Unfiled gone d s w here =
      let released = not (contains gone d) in
      let w' : World = record w { members = without_member i d w.members } in
      Returns-same (release_member h reached i actor gone d)
        (reindex h reached i actor released d >> dossier_deleted h d i actor released) w w' refl
        (Returns-bind (reindex h reached i actor released d)
          (λ u. dossier_deleted h d i actor released) w' (reindex-Same released d w')
          λ u x.
            let v = (reindex h reached i actor released d w').1 in
            let y = recorded-Returns d released s v (rw x.trail here) in
            record {
              value = y.value;
              returned = y.returned;
              holds = record {
                states = λ e. y.holds.0 e ∙ rw x.trail refl;
                dossiers = y.holds.1 ∙ x.dossiers;
                left = λ e k.
                    is_member_unfiled i d e w.members
                      (ap (is_member i e) (sym (y.holds.2 ∙ x.members)) ∙ k);
              };
            })

  -- The documents have a state.
  HasStates : List ℕ → World → Type 0
  HasStates ds w = (e : ℕ) → contains ds e ≡ true → (s : State) × (current_state e w ≡ some s)

  release_members-Unfiled :
      (gone ds : List ℕ) (w : World)
      → HasStates ds w
      → Returns (release_members h reached i actor gone ds) w (λ u v. Unfiled ds w v)
  unfolding release_members HasStates
  release_members-Unfiled gone [] w ready = record {
    value = tt;
    returned = refl;
    holds = record { states = λ e. refl; dossiers = refl; left = λ e k. (k, refl) };
  }
  release_members-Unfiled gone (d ∷ ds) w ready =
      let (s, there) = ready d (ground arith) in
      Returns-bind (release_member h reached i actor gone d)
        (λ u. release_members h reached i actor gone ds) w (release_member-Unfiled gone d s w there)
        λ u x.
          let v = (release_member h reached i actor gone d w).1 in
          let y =
            release_members-Unfiled gone ds v
              (λ e k. let (s, at) = ready e (ground (arith, k)) in (s, x.states e ∙ at)) in
          record {
            value = y.value;
            returned = y.returned;
            holds = record {
              states = λ e. y.holds.states e ∙ x.states e;
              dossiers = y.holds.dossiers ∙ x.dossiers;
              left = λ e k.
                  let (before, unlisted) = y.holds.left e k in
                  let (first, other) = x.left e before in (first, ground (arith, unlisted, other));
            };
          }

  -- What the end of a deletion leaves of the dossier.
  abbrev IsClosed : World → Type 0
  IsClosed v =
      (by_id i v.dossiers ≡ none)
      × (keep (λ t. t.1 == i) v.topics ≡ [])
      × ((e : ℕ) → is_member i e v.members ≡ false)

  remove_dossier-IsClosed :
      (ds : List ℕ) (r : DossierDeletionReport) (w : World)
      → HasStates ds w
      → ((e : ℕ) → (is_member i e w.members ≡ true) → contains ds e ≡ true)
      → Returns
          (remove_dossier h reached i actor ds r)
          w
          (λ q v. IsClosed v × ((e : ℕ) → current_state e v ≡ current_state e w))
  unfolding remove_dossier current_state
  remove_dossier-IsClosed ds r w ready listed =
      Returns-bind (release_members h reached i actor r.deleted ds) _ w
        (release_members-Unfiled r.deleted ds w ready)
        λ u x. record {
          value = r;
          returned = refl;
          holds = (
            (
              by_id-without_dossier i (release_members h reached i actor r.deleted ds w).1.dossiers,
              keep_none i (release_members h reached i actor r.deleted ds w).1.topics,
              λ e. unlisted e x,
            ),
            x.states,
          );
        }
    where
      unlisted :
          (e : ℕ)
          → Unfiled ds w (release_members h reached i actor r.deleted ds w).1
          → is_member i e (release_members h reached i actor r.deleted ds w).1.members ≡ false
      unlisted e x =
          elim (Bool-cases
            (is_member i e (release_members h reached i actor r.deleted ds w).1.members)) [
              | inl there ↦
                  let (before, gone) = x.left e there in absurd (cc (listed e before, gone))
              | inr away ↦ away
            ]

  delete_found-IsClosed :
      (ds : List ℕ) (w : World)
      → Ready h i actor ds w
      → ((e : ℕ) → (is_member i e w.members ≡ true) → contains ds e ≡ true)
      → Returns (delete_found h reached i actor false ds) w (λ q v.
        IsClosed v
        × ((e : ℕ)
            → contains ds e ≡ true
            → (current_state e v ≡ some deleted) ⊎ (held_elsewhere e i w.members ≡ true)))
  unfolding delete_found Ready HasStates
  delete_found-IsClosed ds w ready listed =
      Returns-bind (delete_members h reached i actor false ds) _ w
        (delete_members-Swept h i actor ds ds w ready (λ e k. k))
        λ r x.
          let v = (delete_members h reached i actor false ds w).1 in
          let y =
            remove_dossier-IsClosed ds
              (record {
                deleted = r.0;
                released = r.1;
                topics = length (keep (λ t. t.1 == i) v.topics);
              })
              v (λ e k. ((x.there e k).state, (x.there e k).in_state))
              (λ e k. listed e (ap (is_member i e) (sym x.members) ∙ k)) in
          record {
            value = y.value;
            returned = y.returned;
            holds = (
              y.holds.0,
              λ e k. elim (x.deletes e k) [
                | inl now ↦ inl (y.holds.1 e ∙ now)
                | inr held ↦ inr held
              ],
            );
          }

  -- The deletion of a dossier that is there, whose members have a row and a state, finishes, where the
  -- index answers: the dossier is gone, and so are its topics and its memberships; of each document,
  -- it was no member, or it is deleted, or another dossier had it as a member.
  pub delete_dossier-IsClosed :
      (w : World) (dossier : Dossier)
      → by_id i w.dossiers ≡ some dossier
      → ((d : ℕ) → is_member i d w.members ≡ true → IsThere d w)
      → (r : DossierDeletionReport) × ((delete_dossier h reached i actor false w).0 ≡ ok r)
        × (by_id i (delete_dossier h reached i actor false w).1.dossiers ≡ none)
        × (keep (λ t. t.1 == i) (delete_dossier h reached i actor false w).1.topics ≡ [])
        × ((d : ℕ) → is_member i d (delete_dossier h reached i actor false w).1.members ≡ false)
        × ((e : ℕ)
            → (is_member i e w.members ≡ false)
              ⊎ (current_state e (delete_dossier h reached i actor false w).1 ≡ some deleted)
              ⊎ ((j : ℕ) × (j ≢ i) × (is_member j e w.members ≡ true)))
  unfolding delete_dossier documents_in Ready
  delete_dossier-IsClosed w dossier found there =
      let ds = documents_in (i ∷ []) w in
      let y =
        delete_found-IsClosed ds w (λ d k. there d (sym (documents_in-member i d w.members) ∙ k))
          (λ d k. documents_in-member i d w.members ∙ k) in
      let z =
        Returns-same (delete_dossier h reached i actor false)
          (delete_found h reached i actor false ds) w w (rw found refl) y in
      (
        z.value,
        z.returned,
        z.holds.0.0,
        z.holds.0.1,
        z.holds.0.2,
        λ e. elim (Bool-cases (is_member i e w.members)) [
          | inr never ↦ inl never
          | inl member ↦ inr (
              deleted_or_held i e w.members _
                (z.holds.1 e (documents_in-member i e w.members ∙ member)))
        ],
      )
