-- ===== src/Objects.antt =====
-- The object store, as src/wordsworth/object_store.py: `InMemoryObjectStore` implements it, and the
-- plain branch of `write_original` (src/wordsworth/originals_io.py).
use wordsworth.Prelude.{
  String, Bool, false, Option, none, some, List, [], ◌∷◌, ◌||◌, ◌==◌, string_eq, ok, if◌then◌else◌,
}
use wordsworth.World.{Db, Bytes}

pub data PutResult : Type 0 where
  wrote unchanged legacy : PutResult

unfoldable pub exists : String → List (String × Bytes) → Bool
exists k [] = false
exists k ((j, _) ∷ os) = j == k || exists k os

unfoldable pub get_raw : String → List (String × Bytes) → Option Bytes
get_raw k [] = none
get_raw k ((j, b) ∷ os) = if j == k then some b else get_raw k os

unfoldable pub put : String → Bytes → List (String × Bytes) → List (String × Bytes)
put k b [] = (k, b) ∷ []
put k b ((j, c) ∷ os) = if j == k then (k, b) ∷ os else (j, c) ∷ put k b os

unfoldable pub delete : String → List (String × Bytes) → List (String × Bytes)
delete k [] = []
delete k ((j, b) ∷ os) = if j == k then delete k os else (j, b) ∷ delete k os

-- `write_original` for a plain store
unfoldable pub write_original : String → Bytes → Db PutResult
unfolding exists put
write_original key data_bytes w = (
  ok (if exists key w.objects then unchanged else wrote),
  record w { objects = put key data_bytes w.objects },
)
