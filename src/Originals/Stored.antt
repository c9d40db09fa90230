-- ===== src/Originals/Stored.antt =====
-- An original that is put for the first time is sealed, and a get gives it back.
use wordsworth.Prelude.{
  ℕ, zero, suc, ◌+◌, ◌-◌, String, ◌≡◌, refl, Bool, true, false, none, some, List, [], ◌∷◌, ◌++◌,
  ◌==◌, string_eq, ok, arith, ◌⊎◌, inl, inr, length, drop, leb, Bool-cases, eq_refl,
}
use wordsworth.World.{Bytes}
use wordsworth.Objects
use wordsworth.Objects.{PutResult, wrote}
use wordsworth.Cache.{value_of, without_key, to_end, evict}
use wordsworth.Originals.{Sealer, IsSealer, same_bytes}
use wordsworth.Originals.Opened.{sealed_form, seal-form, open-form}
use wordsworth.Originals.DocumentKeys.{
  DataKey, KeyRow, KeyService, Vaulted, row_of, unwrap, mint, cache_get, cache_put, unwrap_row,
  insert_or_adopt,
}
use wordsworth.Originals.Store.{
  has_magic, put_original, put_by, seal_new, seal_and_write, get_original, get_by, change_row,
}

-- What the key service and the draws promise: what was wrapped unwraps, and key ids and nonces have
-- twelve bytes.
pub record IsKeyService (ks : KeyService) : Type 0 where
  pub unwraps : (kek : String) (m w : Bytes) → ks.wrap kek m ≡ ok w → ks.unwrap kek w ≡ ok m
  pub id_length : (n : ℕ) → length (ks.mint n).key_id ≡ 12
  pub nonce_length : (n : ℕ) → length (ks.nonce n) ≡ 12

gone_nil : {V : Type 0} (k : String) (n : ℕ) → value_of {V = V} k (drop n []) ≡ none
unfolding value_of
gone_nil k zero = refl
gone_nil k (suc n) = refl

-- What a cache that was written last has for the key is what was written, or nothing.
cached_last :
    {V : Type 0} (n : ℕ) (k : String) (v : V) (es : List (String × V))
    → value_of k es ≡ none
    → (value_of k (drop n (es ++ (k, v) ∷ [])) ≡ none)
      ⊎ (value_of k (drop n (es ++ (k, v) ∷ [])) ≡ some v)
unfolding value_of
cached_last zero k v [] e = inr (rw (eq_refl k) refl)
cached_last (suc n) k v [] e = inl (gone_nil k n)
cached_last zero k v ((j, u) ∷ es) e = elim (Bool-cases (j == k)) [
  | inl same ↦ absurd (cc (rw same at e))
  | inr differ ↦ rw differ (cached_last zero k v es (rw differ at e))
]
cached_last (suc n) k v ((j, u) ∷ es) e = elim (Bool-cases (j == k)) [
  | inl same ↦ absurd (cc (rw same at e))
  | inr differ ↦ cached_last n k v es (rw differ at e)
]

without_gone :
    {V : Type 0} (k : String) (es : List (String × V)) → value_of k (without_key k es) ≡ none
unfolding value_of without_key
without_gone k [] = refl
without_gone k ((j, v) ∷ es) = ground (arith, without_gone k es)

row_of-append :
    (k : String) (r : KeyRow) (rs : List KeyRow)
    → row_of k rs ≡ none
    → r.object_key ≡ k
    → row_of k (rs ++ r ∷ []) ≡ some r
unfolding row_of
row_of-append k r [] e same = rw (same, eq_refl k) refl
row_of-append k r (x ∷ rs) e same = elim (Bool-cases (x.object_key == k)) [
  | inl here ↦ absurd (cc (rw here at e))
  | inr differ ↦ rw differ (row_of-append k r rs (rw differ at e) same)
]

abbrev marked : KeyRow → KeyRow
marked r = record r { is_sealed = true }

row_of-change_row :
    (k : String) (r : KeyRow) (rs : List KeyRow)
    → row_of k rs ≡ some r
    → row_of k (change_row k marked rs) ≡ some (marked r)
unfolding row_of change_row
row_of-change_row k r [] e = absurd (cc e)
row_of-change_row k r (x ∷ rs) e = elim (Bool-cases (x.object_key == k)) [
  | inl here ↦ rw (here, here) (let e' : some x ≡ some r = rw here at e in cc e')
  | inr differ ↦ rw (differ, differ) (row_of-change_row k r rs (rw differ at e))
]

get_raw-put :
    (k : String) (b : Bytes) (os : List (String × Bytes))
    → Objects.get_raw k (Objects.put k b os) ≡ some b
unfolding Objects.get_raw Objects.put
get_raw-put k b [] = rw (eq_refl k) refl
get_raw-put k b ((j, a) ∷ os) = elim (Bool-cases (j == k)) [
  | inl here ↦ rw here (rw (eq_refl k) refl)
  | inr differ ↦ rw (differ, differ) (get_raw-put k b os)
]

module _ (c : Sealer) (ks : KeyService) (sound : IsSealer c) (service : IsKeyService ks)
    (domain_of : ℕ → String) (d : ℕ) (k : String) (plain : Bytes) where
  -- The key, the nonce and the row of the first put in a state.
  abbrev its_key : Vaulted → DataKey
  its_key s = ks.mint s.minted

  abbrev its_form : Vaulted → Bytes
  its_form s = sealed_form c (ks.nonce s.drawn) (its_key s).material (its_key s).key_id k plain

  abbrev its_row : Bytes → Bool → Vaulted → KeyRow
  its_row wrapped is_marked s = record {
    object_key = k;
    document_id = d;
    key_id = (its_key s).key_id;
    kek_ref = ks.kek_name_for (domain_of d);
    wrapped_material = wrapped;
    is_sealed = is_marked;
  }

  abbrev its_cache : Vaulted → List (String × (DataKey × ℕ))
  its_cache s = evict ks.cache_size (to_end k (its_key s, s.clock s.reads + ks.cache_ttl) s.cache)

  abbrev stored : Bytes → Vaulted → Vaulted
  stored wrapped s = record s {
    objects = Objects.put k (its_form s) s.objects;
    rows = change_row k marked (s.rows ++ its_row wrapped false s ∷ []);
    cache = its_cache s;
    minted = suc s.minted;
    drawn = suc s.drawn;
    reads = suc s.reads;
  }

  module _ (wrapped : Bytes) (s : Vaulted) (no_row : row_of k s.rows ≡ none)
      (nothing : Objects.get_raw k s.objects ≡ none)
      (wraps : ks.wrap (ks.kek_name_for (domain_of d)) (its_key s).material ≡ ok wrapped) where
    put_run : put_original c ks domain_of d k plain s ≡ (ok wrote, stored wrapped s)
    unfolding put_original put_by seal_new mint insert_or_adopt cache_put seal_and_write
    put_run =
        rw
          (
            no_row,
            nothing,
            wraps,
            no_row,
            seal-form c (ks.nonce s.drawn) (its_key s).material (its_key s).key_id k plain
                (service.id_length s.minted) (service.nonce_length s.drawn),
          )
          refl

    row_there : row_of k (stored wrapped s).rows ≡ some (its_row wrapped true s)
    row_there =
        row_of-change_row k (its_row wrapped false s) (s.rows ++ its_row wrapped false s ∷ [])
          (row_of-append k (its_row wrapped false s) s.rows no_row refl)

    -- The key of the object is at hand afterwards, from the cache or from the row.
    unwrap_run : (unwrap ks k (stored wrapped s)).0 ≡ ok (its_key s)
    unfolding unwrap cache_get unwrap_row evict cache_put
    unwrap_run =
        let entry : DataKey × ℕ = (its_key s, s.clock s.reads + ks.cache_ttl) in
        let opens =
          service.unwraps (ks.kek_name_for (domain_of d)) (its_key s).material wrapped wraps in
        elim (cached_last (length (to_end k entry s.cache) - ks.cache_size) k entry
          (without_key k s.cache) (without_gone k s.cache)) [
            | inl gone ↦ rw (gone, row_there, opens) refl
            | inr found ↦
                elim (Bool-cases (leb (s.clock s.reads + ks.cache_ttl) (s.clock (suc s.reads)))) [
                  | inl expired ↦ rw (found, expired, row_there, opens) refl
                  | inr fresh ↦ rw (found, fresh) refl
                ]
          ]

    sealed_magic : has_magic (its_form s) ≡ true
    unfolding has_magic same_bytes
    sealed_magic = refl

    get_run : (get_original c ks k (stored wrapped s)).0 ≡ ok plain
    unfolding get_original get_by
    get_run =
        rw
          (
            get_raw-put k (its_form s) s.objects,
            unwrap_run,
            open-form c (ks.nonce s.drawn) (its_key s).material (its_key s).key_id k plain
                (service.id_length s.minted) (service.nonce_length s.drawn) sound,
          )
          refl

  -- An original that is put where there is no key row and nothing stored, when the key service wraps
  -- the new key, is written sealed, and a get gives it back, whatever the cache holds and the clock
  -- says. The cipher decrypts what it encrypted, the service unwraps what it wrapped, and key ids and
  -- nonces have twelve bytes.
  pub get_original-put_original :
      (wrapped : Bytes) (s : Vaulted)
      → row_of k s.rows ≡ none
      → Objects.get_raw k s.objects ≡ none
      → ks.wrap (ks.kek_name_for (domain_of d)) (its_key s).material ≡ ok wrapped
      → ((put_original c ks domain_of d k plain s).0 ≡ ok wrote)
        × ((b : Bytes) × (Objects.get_raw k (put_original c ks domain_of d k plain s).1.objects
              ≡ some b)
            × (has_magic b ≡ true))
        × ((get_original c ks k (put_original c ks domain_of d k plain s).1).0 ≡ ok plain)
  get_original-put_original wrapped s no_row nothing wraps =
      rw (put_run wrapped s no_row nothing wraps) (
        refl,
        (
          its_form s,
          get_raw-put k (its_form s) s.objects,
          sealed_magic wrapped s no_row nothing wraps,
        ),
        get_run wrapped s no_row nothing wraps,
      )
