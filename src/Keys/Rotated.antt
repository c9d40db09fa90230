-- ===== src/Keys/Rotated.antt =====
-- A rotation leaves every pseudonym what it stood for.
use wordsworth.Prelude.{
  ℕ, suc, String, ◌≡◌, refl, true, false, none, some, List, [], ◌∷◌, ◌==◌, string_eq, Outcome, ok,
  err, if◌then◌else◌, arith, eq_iff, Bool-cases, inl, inr, Option-cases, ap, ◌∙◌, sym, beq_refl,
}
use wordsworth.World.{Exc, PiiMapping}
use wordsworth.Keys.{
  Key, Crypto, IsCipher, Keystore, find_key, put_key, get_mapping, current_id, set_current, key,
  current_key, rotate, mint_current,
}
use wordsworth.Keys.Escrow.{Sealing, deposit}
use wordsworth.Keys.Rotation.{
  reencrypt_each, renewed, counted_row, reencrypt, rotate_keys, rotation,
}
use wordsworth.Keys.Clear.{
  find_key-put_key, text_of, text_if, clear, readable, uses, is_ok, pass_other, pass_old,
}

is_ok-ok : (o : Outcome Exc String) → is_ok o ≡ true → (t : String) × (o ≡ ok t)
is_ok-ok (ok t) e = (t, refl)
is_ok-ok (err x) e = absurd (cc e)

module _ (c : Crypto) (sound : IsCipher c) (old new : Key)
    (differ : (new.id == old.id) ≡ false) where
  module _ (ks after : List Key) (old_there : find_key old.id ks ≡ some old)
      (new_there : find_key new.id after ≡ some new)
      (others : (i : String) (k : Key) → find_key i ks ≡ some k → find_key i after ≡ some k) where
    -- What a row says is said by the row that the pass leaves.
    kept : (m : PiiMapping) (t : String) → text_of c ks m ≡ some t → text_of c after m ≡ some t
    kept m t said = elim (Option-cases (find_key m.key_id ks)) [
      | inl gone ↦ absurd (cc (rw gone at said))
      | inr (k, there) ↦ rw (others m.key_id k there) (rw there at said)
    ]

    -- What a row of the old key says.
    held :
        (m : PiiMapping) (t : String)
        → (m.key_id == old.id) ≡ true
        → c.unseal old.material m.nonce m.ciphertext ≡ ok t
        → text_of c ks m ≡ some t
    held m t his opens =
        let named : m.key_id ≡ old.id = (eq_iff m.key_id old.id).0 his in
        let there : find_key m.key_id ks ≡ some old = ap (λ i. find_key i ks) named ∙ old_there in
        rw (there, opens) refl

    renewed_said :
        (m : PiiMapping) (drawn : ℕ) (t : String)
        → text_of c after (renewed c old new drawn t m) ≡ some t
    renewed_said m drawn t = rw (new_there, sound.opens new.material (c.nonce drawn) t) refl

    -- What a pass over the rows leaves.
    record Passed (ms rows : List PiiMapping) : Type 0 where
      said :
          (q t : String)
          → text_if c ks (get_mapping q ms) ≡ some t
          → text_if c after (get_mapping q rows) ≡ some t
      unused : uses old.id rows ≡ 0

    Passed-cons :
        (m n : PiiMapping) (ms rows : List PiiMapping)
        → n.pseudonym ≡ m.pseudonym
        → ((t : String) → text_of c ks m ≡ some t → text_of c after n ≡ some t)
        → (n.key_id == old.id) ≡ false
        → Passed ms rows
        → Passed (m ∷ ms) (n ∷ rows)
    unfolding get_mapping uses
    Passed-cons m n ms rows same one moved rest = record {
      said = λ q t e. elim (Bool-cases (m.pseudonym == q)) [
        | inl here ↦ rw (same, here) (one t (rw here at e))
        | inr other ↦ rw (same, other) (rest.said q t (rw other at e))
      ];
      unused = rw moved rest.unused;
    }

    passed :
        (ms : List PiiMapping) (drawn : ℕ)
        → readable c old ms ≡ true
        → (n : ℕ) × ((reencrypt_each c old new ms drawn).result ≡ ok n)
          × Passed ms (reencrypt_each c old new ms drawn).rows
    unfolding reencrypt_each readable get_mapping uses
    passed [] drawn r = (0, refl, record { said = λ q t e. absurd (cc e); unused = refl })
    passed (m ∷ ms) drawn r = elim (Bool-cases (m.key_id == old.id)) [
      | inr other ↦
          let (n, done, p) = passed ms drawn (ground (arith, r, other)) in
          rw (pass_other c sound old new m ms drawn other)
            (n, done, Passed-cons m m ms _ refl (kept m) other p)
      | inl his ↦
          let (t, opens) =
            is_ok-ok (c.unseal old.material m.nonce m.ciphertext) (ground (arith, r, his)) in
          let (n, done, p) = passed ms (suc drawn) (ground (arith, r, his)) in
          rw (pass_old c sound old new m ms drawn t his opens) (
            suc n,
            ap (λ o. counted_row o) done,
            Passed-cons m (renewed c old new drawn t m) ms _ refl
                (λ u e. renewed_said m drawn t ∙ (sym (held m t his opens) ∙ e)) differ p,
          )
    ]

current_id-set_current :
    (scope t i : String) (cs : List (String × String))
    → current_id t (set_current scope i cs) ≡ (if scope == t then some i else current_id t cs)
unfolding current_id set_current
current_id-set_current scope t i [] = ground arith
current_id-set_current scope t i ((u, j) ∷ cs) =
    ground (arith, current_id-set_current scope t i cs, eq_iff u scope, eq_iff u t, eq_iff scope t)

module _ (c : Crypto) where
  key_found :
      (i : String) (k : Key) (s : Keystore) → find_key i s.keys ≡ some k → key i s ≡ (ok k, s)
  unfolding key
  key_found i k s there = rw (key, there) refl

  pub current_key_known :
      (scope : String) (k : Key) (s : Keystore)
      → current_id scope s.current ≡ some k.id
      → find_key k.id s.keys ≡ some k
      → current_key c scope s ≡ (ok k, s)
  unfolding current_key
  current_key_known scope k s known there = rw known (key_found k.id k s there)

  reencrypt_run :
      (old new : Key) (s : Keystore)
      → find_key old.id s.keys ≡ some old
      → find_key new.id s.keys ≡ some new
      → reencrypt c old.id new.id s ≡ (
          let p = reencrypt_each c old new s.mappings s.drawn in
          (p.result, record s { mappings = p.rows; drawn = p.drawn }))
  unfolding reencrypt
  reencrypt_run old new s there here =
      rw (key_found old.id old s there, key_found new.id new s here) refl

  -- The provider once the scope has a new key.
  abbrev minted : String → Keystore → Keystore
  minted scope s =
      let fresh = c.mint s.minted in
      record s {
        keys = put_key fresh s.keys;
        current = set_current scope fresh.id s.current;
        minted = suc s.minted;
      }

  rotate_known :
      (scope : String) (k : Key) (s : Keystore)
      → current_id scope s.current ≡ some k.id
      → find_key k.id s.keys ≡ some k
      → rotate c scope s ≡ (ok (c.mint s.minted), minted scope s)
  unfolding rotate mint_current
  rotate_known scope k s known there = rw (current_key_known scope k s known there) refl

  -- A key that was there still is, and the minted one is.
  find_key-minted :
      (scope i : String) (k : Key) (s : Keystore)
      → find_key (c.mint s.minted).id s.keys ≡ none
      → find_key i s.keys ≡ some k
      → find_key i (minted scope s).keys ≡ some k
  find_key-minted scope i k s fresh there = elim (Bool-cases ((c.mint s.minted).id == i)) [
    | inl same ↦ absurd (cc (fresh, there, (eq_iff (c.mint s.minted).id i).0 same))
    | inr other ↦ find_key-put_key (c.mint s.minted) i s.keys ∙ rw other there
  ]

module _ (c : Crypto) (sound : IsCipher c) (e : Sealing) where
  -- What a rotation leaves.
  pub record Rotated (scope : String) (old new : Key) (before after : Keystore) : Type 0 where
    -- every pseudonym that stood for a text stands for it
    pub said : (p t : String) → clear c p before ≡ some t → clear c p after ≡ some t
    -- no mapping is under the old key
    pub unused : uses old.id after.mappings ≡ 0
    -- the new key is the scope's, and the old one can still be read
    pub current_new : current_id scope after.current ≡ some new.id
    pub old_kept : find_key old.id after.keys ≡ some old

  -- A rotation of a scope that has a key, where every mapping under that key decrypts and the id of
  -- the minted key is new, finishes: every pseudonym that stood for a text stands for it, no mapping
  -- is left under the old key, and the minted key is the scope's. The cipher decrypts what it
  -- encrypted.
  pub rotate_keys-Rotated :
      (n : ℕ) (actor scope : String) (old : Key) (s : Keystore)
      → current_id scope s.current ≡ some old.id
      → find_key old.id s.keys ≡ some old
      → find_key (c.mint s.minted).id s.keys ≡ none
      → readable c old s.mappings ≡ true
      → ((rotate_keys c e n actor scope s).0 ≡ ok (c.mint s.minted))
        × Rotated scope old (c.mint s.minted) s (rotate_keys c e n actor scope s).1
  unfolding rotate_keys rotate mint_current deposit rotation clear
  rotate_keys-Rotated n actor scope old s known there fresh reads =
      let new = c.mint s.minted in
      let after = minted c scope s in
      let here : find_key new.id after.keys ≡ some new =
        find_key-put_key new new.id s.keys ∙ rw (beq_refl new.id) refl in
      let stays = find_key-minted c scope old.id old s fresh there in
      let differ : (new.id == old.id) ≡ false = elim (Bool-cases (new.id == old.id)) [
        | inl same ↦ absurd (cc (fresh, there, (eq_iff new.id old.id).0 same))
        | inr other ↦ other
      ] in
      let (m, done, p) =
        passed c sound old new differ s.keys after.keys there here
          (λ i k. find_key-minted c scope i k s fresh) s.mappings s.drawn reads in
      rw (current_key_known c scope old s known there, rotate_known c scope old s known there)
        (rw (reencrypt_run c old new (deposit e n new after).1 stays here, done)
          (
            refl,
            record {
              said = p.said;
              unused = p.unused;
              current_new =
                  current_id-set_current scope scope new.id s.current ∙ rw (beq_refl scope) refl;
              old_kept = stays;
            },
          ))
