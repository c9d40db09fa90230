-- ===== src/Index.antt =====
-- The search seam, as src/wordsworth/search_index.py: `InMemoryIndex` implements it: the documents
-- in the index, one entry for each id.
pub mod Laws
use wordsworth.Prelude.{
  ℕ, String, Bool, true, false, Option, none, some, List, [], ◌∷◌, ◌||◌, ◌==◌, nat_eq, string_eq,
  not, keep, contains, map, if◌then◌else◌,
}
use wordsworth.World.{IndexEntry}

-- `self._docs.get(document_id)`
unfoldable pub lookup : ℕ → List IndexEntry → Option IndexEntry
lookup i [] = none
lookup i (e ∷ es) = if e.document_id == i then some e else lookup i es

unfoldable pub exists : ℕ → List IndexEntry → Bool
exists i [] = false
exists i (e ∷ es) = e.document_id == i || exists i es

-- `index`: an upsert by id that replaces the whole entry, in the place of the one before.
unfoldable pub put : IndexEntry → List IndexEntry → List IndexEntry
put e [] = e ∷ []
put e (d ∷ es) = if d.document_id == e.document_id then e ∷ es else d ∷ put e es

-- `delete`: the entries after it; whether there was one is `exists`.
unfoldable pub delete : ℕ → List IndexEntry → List IndexEntry
delete i [] = []
delete i (e ∷ es) = if e.document_id == i then delete i es else e ∷ delete i es

-- `set_dossiers`: the dossiers and nothing else; nothing for a document that is not there.
unfoldable pub set_dossiers : ℕ → List ℕ → List IndexEntry → List IndexEntry
set_dossiers i ds [] = []
set_dossiers i ds (e ∷ es) =
    if e.document_id == i then record e { dossiers = ds } ∷ es else e ∷ set_dossiers i ds es

unfoldable pub set_topics : ℕ → List String → List IndexEntry → List IndexEntry
set_topics i ts [] = []
set_topics i ts (e ∷ es) =
    if e.document_id == i then record e { topics = ts } ∷ es else e ∷ set_topics i ts es

unfoldable pub set_passages : ℕ → List (List ℕ) → List IndexEntry → List IndexEntry
set_passages i ps [] = []
set_passages i ps (e ∷ es) =
    if e.document_id == i then record e { passages = ps } ∷ es else e ∷ set_passages i ps es

unfoldable pub topics_of : ℕ → List IndexEntry → List String
unfolding lookup
topics_of i es = elim (lookup i es) [ none ↦ [] | some e ↦ e.topics ]

unfoldable pub has_object_key : String → List IndexEntry → Bool
has_object_key k [] = false
has_object_key k (e ∷ es) = e.object_key == k || has_object_key k es

-- `not set(xs).isdisjoint(ys)`
abbrev pub meets : List ℕ → List ℕ → Bool
meets [] ys = false
meets (x ∷ xs) ys = contains ys x || meets xs ys

-- `_in_scope` for an entry: the dossiers asked for, and the topic.
unfoldable pub in_scope : Option (List ℕ) → Option String → IndexEntry → Bool
in_scope (some only) topic e =
    if meets e.dossiers only
    then elim topic [ none ↦ true | some t ↦ contains e.topics t ]
    else false
in_scope none topic e = elim topic [ none ↦ true | some t ↦ contains e.topics t ]
