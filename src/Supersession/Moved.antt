-- ===== src/Supersession/Moved.antt =====
-- A supersession on the abstract view: what the copy was a member of, the survivor is.
use wordsworth.Prelude.{
  ℕ, ◌+◌, String, ◌≡◌, ◌≢◌, refl, true, false, not, ◌&&◌, ◌||◌, Option, none, some, List, [], ◌∷◌,
  ◌==◌, nat_eq, string_eq, eq_iff, Bool-cases, inl, inr, arith, map, keep, contains, Runs,
  Runs-outcome, Runs-result, Runs-bind, if◌then◌else◌, pure,
}
use text.Mathlib.TextLemmas.{cons-append, cons≢nil}
use Prim.Native.Char.{Char}
use Prim.Native.String.{◌∷◌ as cons_text}
use wordsworth.Text.{is_blank, strip, lstrip, rstrip, is_space}
use wordsworth.States.{State}
use wordsworth.World.{World, Document, find_document}
use wordsworth.Audit.{Host}
use wordsworth.Dossiers.{is_member}
use wordsworth.Dossiers.Membership.{add, remove}
use wordsworth.Dossiers.View.{View, Shows, Shows-member, with_pair, without_pair}
use wordsworth.Dossiers.Refined.{add-Runs, remove-Runs}
use wordsworth.Pipeline.{dossiers_of}
use wordsworth.Deletion.{int}
use wordsworth.Supersession.{move_memberships, supersession_reason}

pub contains-dossiers_of :
    (d : ℕ) (i : ℕ) (w : World) → contains (dossiers_of d w) i ≡ is_member i d w.members
unfolding dossiers_of is_member
contains-dossiers_of d i w = go w.members
  where
    go :
        (ms : List (ℕ × ℕ))
        → contains (map (λ m. m.0) (keep (λ (m : ℕ × ℕ). m.1 == d) ms)) i ≡ is_member i d ms
    go [] = refl
    go ((j, e) ∷ ms) = ground (arith, go ms)

-- The membership once the dossiers of the list passed from the copy to the survivor.
abbrev pub passed_on : ℕ → ℕ → List ℕ → View → View
passed_on copy survivor ds v = record v {
  member = λ i e.
      if e == survivor
      then v.member i e || contains ds i
      else if e == copy
      then v.member i e && not (contains ds i)
      else v.member i e;
}

-- A text that begins with a character that is no space is not blank.
is_blank-cons : (c : Char) (t : String) → is_space c ≡ false → is_blank (cons_text c t) ≡ false
unfolding is_blank strip lstrip rstrip
is_blank-cons c t solid = rw (solid, solid) (cons_nonempty (rstrip t))
  where
    cons_nonempty : (r : String) → (cons_text c r == "") ≡ false
    cons_nonempty r = elim (Bool-cases (cons_text c r == "")) [
      | inl e ↦ absurd (cons≢nil ((eq_iff (cons_text c r) "").0 e))
      | inr n ↦ n
    ]

reason_said : (h : Host) (s : ℕ) → is_blank (supersession_reason h s) ≡ false
unfolding supersession_reason is_space
reason_said h s = rw (cons-append "s" "uperseded by " (h.uuid_text s)) (is_blank-cons "s" _ refl)

passed_one :
    (v : View) (copy survivor i : ℕ) (is : List ℕ)
    → copy ≢ survivor
    → v.has_dossier i ≡ true
    → (j e : ℕ)
    → (passed_on copy survivor is (without_pair i copy (with_pair i survivor v))).member j e
      ≡ (passed_on copy survivor (i ∷ is) v).member j e
passed_one v copy survivor i is differ known j e = ground (arith, known)

module _ (h : Host) (copy survivor : ℕ) (actor : String) (batch : Option String) where
  pub move_memberships-Runs :
      (ds : List ℕ) (v : View) (d : Document) (s t : State)
      → copy ≢ survivor
      → find_document survivor v.documents ≡ some d
      → d.superseded_by ≡ none
      → v.state survivor ≡ some s
      → v.state copy ≡ some t
      → ((i : ℕ) → contains ds i ≡ true → v.has_dossier i ≡ true)
      → Runs
          (Shows v)
          (move_memberships h ds copy survivor actor batch)
          (λ n w. Shows (passed_on copy survivor ds v) w)
  unfolding move_memberships
  move_memberships-Runs [] v d s t differ there live here gone known =
      Runs-outcome (pure (0, 0)) λ w x. ((0, 0), refl, Shows-member v _ w x λ i e. ground arith)
  move_memberships-Runs (i ∷ is) v d s t differ there live here gone known =
      Runs-bind (add h i survivor actor batch) _
        (add-Runs h v i survivor actor batch d s there live here)
        λ m. Runs-outcome _ λ w x.
          let (r, removed, y) =
            Runs-result (remove h i copy actor (supersession_reason h survivor) batch) w
              (remove-Runs h (with_pair i survivor v) i copy actor batch
                (supersession_reason h survivor) t (reason_said h survivor) gone)
              x.1 in
          let (n, moved, z) =
            Runs-result (move_memberships h is copy survivor actor batch) _
              (move_memberships-Runs is (without_pair i copy (with_pair i survivor v)) d s t differ
                there live here gone (λ j k. known j (ground (arith, k))))
              y.1 in
          (
            (int m + n.0, int r + n.1),
            rw (removed, moved) refl,
            rw (removed, moved)
                (Shows-member _ _ _ z
                  (passed_one v copy survivor i is differ (known i (ground arith)))),
          )
