-- ===== src/Cache/Truthful.antt =====
-- A cache in front of a function changes no answer.
use Prim.Native.String.{String}
use wordsworth.Prelude.{
  ℕ, zero, suc, ◌-◌, ◌≡◌, refl, Option, none, some, List, [], ◌∷◌, Outcome, ok, string_eq, ◌==◌,
  length, drop, All, eq_iff, map, Option-cases, Bool-cases, inl, inr, ap, ◌∙◌,
}
use mathlib.Core.List.{◌++◌ as append_list}
use wordsworth.World.{Exc}
use wordsworth.Cache.{value_of, without_key, to_end, get, evict, set}
use wordsworth.Cache.Embedder.{probe, missing, fill, embed, embed_missing}

module _ {V : Type 0} (f : String → V) where
  -- Every entry of the store holds what `f` gives for its key.
  unfoldable pub IsTruthful : List (String × V) → Type 0
  IsTruthful [] = Unit {0}
  IsTruthful ((k, v) ∷ es) = (v ≡ f k) × IsTruthful es

  value_of-IsTruthful :
      (k : String) (v : V) (es : List (String × V))
      → IsTruthful es
      → value_of k es ≡ some v
      → v ≡ f k
  unfolding value_of IsTruthful
  value_of-IsTruthful k v [] h e = cc
  value_of-IsTruthful k v ((j, u) ∷ es) h e = elim (Bool-cases (j == k)) [
    | inl same ↦ let named : j ≡ k = (eq_iff j k).0 same in cc (h.0, rw same at e, named)
    | inr other ↦ value_of-IsTruthful k v es h.1 (rw other at e)
  ]

  IsTruthful-without_key :
      (k : String) (es : List (String × V)) → IsTruthful es → IsTruthful (without_key k es)
  unfolding without_key IsTruthful
  IsTruthful-without_key k [] h = h
  IsTruthful-without_key k ((j, v) ∷ es) h = elim (Bool-cases (j == k)) [
    | inl same ↦ rw same (IsTruthful-without_key k es h.1)
    | inr other ↦ rw other (h.0, IsTruthful-without_key k es h.1)
  ]

  IsTruthful-end :
      (k : String) (v : V) (es : List (String × V))
      → IsTruthful es
      → v ≡ f k
      → IsTruthful (append_list es ((k, v) ∷ []))
  unfolding IsTruthful
  IsTruthful-end k v [] h e = (e, tt)
  IsTruthful-end k v (x ∷ es) h e = (h.0, IsTruthful-end k v es h.1 e)

  IsTruthful-drop : (n : ℕ) (es : List (String × V)) → IsTruthful es → IsTruthful (drop n es)
  unfolding IsTruthful
  IsTruthful-drop zero es h = h
  IsTruthful-drop (suc n) [] h = h
  IsTruthful-drop (suc n) (x ∷ es) h = IsTruthful-drop n es h.1

  IsTruthful-set :
      (maxsize : ℕ) (k : String) (v : V) (es : List (String × V))
      → IsTruthful es
      → v ≡ f k
      → IsTruthful (set maxsize k v es)
  unfolding set evict
  IsTruthful-set maxsize k v es h e =
      IsTruthful-drop (length (to_end k v es) - maxsize) (to_end k v es)
        (IsTruthful-end k v (without_key k es) (IsTruthful-without_key k es h) e)

module _ {V : Type 0} where
  get_gone : (k : String) (es : List (String × V)) → value_of k es ≡ none → get k es ≡ (none, es)
  unfolding get
  get_gone k es gone = rw (get, gone) refl

  get_found :
      (k : String) (v : V) (es : List (String × V))
      → value_of k es ≡ some v
      → get k es ≡ (some v, to_end k v es)
  unfolding get
  get_found k v es found = rw (get, found) refl

module _ {V : Type 0} (f : String → V) (maxsize : ℕ) (key : String → String) where
  -- What the cache had for a text is what `f` gives.
  IsHit : String × Option V → Type 0
  IsHit (t, none) = Unit {0}
  IsHit (t, some v) = v ≡ f (key t)

  get-IsTruthful :
      (t : String) (es : List (String × V))
      → IsTruthful f es
      → IsHit (t, (get (key t) es).0) × IsTruthful f (get (key t) es).1
  unfolding IsHit
  get-IsTruthful t es h = elim (Option-cases (value_of (key t) es)) [
    | inl gone ↦ rw (get_gone (key t) es gone) (tt, h)
    | inr (v, found) ↦
        let right = value_of-IsTruthful f (key t) v es h found in
        rw (get_found (key t) v es found) (
          right,
          IsTruthful-end f (key t) v (without_key (key t) es)
              (IsTruthful-without_key f (key t) es h) right,
        )
  ]

  abbrev answers : List String → List (Option V)
  answers ts = map (λ t. some (f (key t))) ts

  probe-IsTruthful :
      (ts : List String) (es : List (String × V))
      → IsTruthful f es
      → All IsHit (probe maxsize key ts es).0
        × (map (λ p. p.0) (probe maxsize key ts es).0 ≡ ts)
        × IsTruthful f (probe maxsize key ts es).1
  unfolding probe
  probe-IsTruthful [] es h = (tt, refl, h)
  probe-IsTruthful (t ∷ ts) es h =
      let (hit, after) = get-IsTruthful t es h in
      let (hits, same, final) = probe-IsTruthful ts (get (key t) es).1 after in
      ((hit, hits), ap (λ us. t ∷ us) same, final)

  fill-answers :
      (ps : List (String × Option V)) (es : List (String × V))
      → All IsHit ps
      → IsTruthful f es
      → ((fill maxsize key ps (map (λ t. f (key t)) (missing maxsize key ps)) es).0
          ≡ answers (map (λ p. p.0) ps))
        × IsTruthful f (fill maxsize key ps (map (λ t. f (key t)) (missing maxsize key ps)) es).1
  unfolding fill missing IsHit
  fill-answers [] es hits h = (refl, h)
  fill-answers ((t, some v) ∷ ps) es hits h =
      let (same, final) = fill-answers ps es hits.1 h in (rw (hits.0, same) refl, final)
  fill-answers ((t, none) ∷ ps) es hits h =
      let (same, final) =
        fill-answers ps (set maxsize (key t) (f (key t)) es) hits.1
          (IsTruthful-set f maxsize (key t) (f (key t)) es h refl) in
      (ap (λ r. some (f (key t)) ∷ r) same, final)

  -- With a store that holds what `f` gives, and an inner embedder that gives for each text of a batch
  -- what `f` gives for the text's key, `embed` returns the vectors that the inner embedder gives for
  -- the whole batch, in its order, and leaves such a store.
  pub embed-inner :
      (inner : List String → Outcome Exc (List V)) (texts : List String) (es : List (String × V))
      → ((ts : List String) → inner ts ≡ ok (map (λ t. f (key t)) ts))
      → IsTruthful f es
      → ((embed maxsize key inner texts es).0 ≡ ok (answers texts))
        × IsTruthful f (embed maxsize key inner texts es).1
  unfolding embed
  embed-inner inner texts es elementwise h =
      let (hits, same, after) = probe-IsTruthful texts es h in
      let ps = (probe maxsize key texts es).0 in
      let (right, final) = fill-answers ps (probe maxsize key texts es).1 hits after in
      rw (batch inner elementwise (missing maxsize key ps)) (ap ok (right ∙ ap answers same), final)
    where
      batch :
          (inner : List String → Outcome Exc (List V))
          → ((ts : List String) → inner ts ≡ ok (map (λ t. f (key t)) ts))
          → (ts : List String) → embed_missing maxsize key inner ts ≡ ok (map (λ t. f (key t)) ts)
      batch inner e [] = refl
      batch inner e (t ∷ ts) = e (t ∷ ts)
