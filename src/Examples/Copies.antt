-- ===== src/Examples/Copies.antt =====
-- The theorems on supersession, recovery and the view of memberships, applied.
use wordsworth.Text.{is_blank}
use wordsworth.Prelude.{ℕ, inr, ◌≡◌, refl, true, Bool, none, some, [], ◌∷◌, ok, latest, arith}
use wordsworth.Json.{end}
use wordsworth.States.{registered, is_allowed}
use wordsworth.World.{World, Document, find_document}
use wordsworth.Audit.{append, current_state}
use wordsworth.Audit.Lawful.{IsAudited}
use wordsworth.Audit.Lawful.{append-IsAudited}
use wordsworth.Audit.Actions.{IsAudited-trail}
use wordsworth.Dossiers.{is_member, has_dossier}
use wordsworth.Dossiers.Membership.{add, remove}
use wordsworth.Dossiers.Refined.{Added, Removed, changes-Refine}
use wordsworth.Deletion.Gone.{reached}
use wordsworth.Supersession.{supersede, Supersession}
use wordsworth.Supersession.Retired.{Retired, supersede-Retired, view_of, view_of-Shows}
use wordsworth.Supersession.Audited.{supersede-IsAudited}
use wordsworth.Recovery.{recover}
use wordsworth.Recovery.Audited.{recover-IsAudited}
use wordsworth.Examples.Samples.{host, empty_world, services}
use wordsworth.Examples.Trails.{host-IsDigest, empty-IsAudited}

abbrev pub first : Document
first = record {
  id = 1;
  object_key = "documents/5feceb66";
  filename = none;
  superseded_by = none;
  source_url = none;
  fetched_at = none;
  source_sha256 = none;
}

abbrev pub two_records : World
two_records =
    (append host 2 none registered "register" end
      (append host 1 none registered "register" end empty_world).1).1

-- Two live documents of one object; the copy is in dossier 7.
abbrev two_copies : World
two_copies = record two_records {
  documents = first ∷ record first { id = 2 } ∷ [];
  dossiers = record { id = 7; name = "Woo 7" } ∷ [];
  members = (7, 2) ∷ [];
}

two_copies-has_dossier :
    (i : ℕ) → is_member i 2 two_copies.members ≡ true → has_dossier i two_copies.dossiers ≡ true
unfolding is_member has_dossier
two_copies-has_dossier i k = ground (arith, k)

two_copies-IsAudited : IsAudited host two_copies
unfolding current_state append latest is_allowed
two_copies-IsAudited = IsAudited-trail host two_records two_copies refl (
    append-IsAudited host host-IsDigest 2 none registered "register" end
      (append host 1 none registered "register" end empty_world).1 refl (inr refl)
      (append-IsAudited host host-IsDigest 1 none registered "register" end empty_world refl
        (inr refl) empty-IsAudited))

supersede-Retired_example :
    (r : Supersession) × ((supersede host (some reached) 2 1 "dedupe" none none two_copies).0
      ≡ ok r)
    × (r.done ≡ true)
    × Retired 2 1 two_copies (supersede host (some reached) 2 1 "dedupe" none none two_copies).1
unfolding find_document current_state append is_allowed latest
supersede-Retired_example =
    supersede-Retired host 2 1 "dedupe" none none two_copies (record first { id = 2 }) first
      registered registered (omega arith) refl refl refl refl refl refl refl refl
      two_copies-has_dossier

supersede-IsAudited_example :
    IsAudited host (supersede host (some reached) 2 1 "dedupe" none none two_copies).1
supersede-IsAudited_example =
    supersede-IsAudited host host-IsDigest (some reached) 2 1 "dedupe" none none two_copies
      two_copies-IsAudited

changes-Refine_example :
    ((b : Bool) × ((add host 7 1 "jan" none two_copies).0 ≡ ok b)
      × Added host (view_of two_copies) 7 1 "jan" none b (add host 7 1 "jan" none two_copies).1)
    × ((b : Bool) × ((remove host 7 1 "jan" "dubbel" none two_copies).0 ≡ ok b)
        × Removed host
            (view_of two_copies)
            7
            1
            "jan"
            none
            b
            (remove host 7 1 "jan" "dubbel" none two_copies).1)
unfolding find_document current_state append latest is_blank
changes-Refine_example =
    changes-Refine host (view_of two_copies) 7 1 "jan" none first registered "dubbel" two_copies
      refl refl refl refl (view_of-Shows two_copies)

recover-IsAudited_example :
    IsAudited host (recover host services (λ n b. ok (n ∷ b)) 100 1 empty_world).1
recover-IsAudited_example =
    recover-IsAudited host host-IsDigest 1 services (λ n b. ok (n ∷ b)) 100 empty_world
      empty-IsAudited
