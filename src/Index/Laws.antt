-- ===== src/Index/Laws.antt =====
-- Lookups after each write of the index.
use wordsworth.Prelude.{
  ℕ, Bool, ◌≡◌, refl, Option, none, some, List, [], ◌∷◌, ◌==◌, nat_eq, arith, if◌then◌else◌, true,
  false,
}
use wordsworth.World.{IndexEntry}
use wordsworth.Index.{lookup, put, delete, exists, set_dossiers}

pub lookup-put :
    (e : IndexEntry) (i : ℕ) (es : List IndexEntry)
    → lookup i (put e es) ≡ (if e.document_id == i then some e else lookup i es)
unfolding lookup put
lookup-put e i [] = refl
lookup-put e i (d ∷ es) = ground (arith, lookup-put e i es)

pub lookup-delete :
    (d i : ℕ) (es : List IndexEntry)
    → lookup i (delete d es) ≡ (if d == i then none else lookup i es)
unfolding lookup delete
lookup-delete d i [] = ground arith
lookup-delete d i (e ∷ es) = ground (arith, lookup-delete d i es)

abbrev pub is_some_entry : Option IndexEntry → Bool
is_some_entry none = false
is_some_entry (some e) = true

pub exists-lookup : (i : ℕ) (es : List IndexEntry) → exists i es ≡ is_some_entry (lookup i es)
unfolding lookup exists
exists-lookup i [] = refl
exists-lookup i (e ∷ es) = ground (arith, exists-lookup i es)

abbrev with_dossiers : List ℕ → Option IndexEntry → Option IndexEntry
with_dossiers ds none = none
with_dossiers ds (some e) = some (record e { dossiers = ds })

-- `set_dossiers` changes the dossiers of the document's entry alone: no other field of it, and no
-- other entry.
pub lookup-set_dossiers :
    (d : ℕ) (ds : List ℕ) (i : ℕ) (es : List IndexEntry)
    → lookup i (set_dossiers d ds es)
      ≡ (if d == i then with_dossiers ds (lookup i es) else lookup i es)
unfolding lookup set_dossiers
lookup-set_dossiers d ds i [] = ground arith
lookup-set_dossiers d ds i (e ∷ es) = ground (arith, lookup-set_dossiers d ds i es)
