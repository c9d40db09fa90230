-- ===== src/Access.antt =====
-- `email_from` of src/wordsworth/access_identity.py: who an access assertion names. Base64, JSON and
-- the RSA signature are the parameter `Decoder`; times are in whole units.
pub mod Accepted
use Prim.Native.Char.{code}
use Prim.Native.String.{◌++◌ as append_string, [] as empty, ◌∷◌ as cons_text}
use wordsworth.Prelude.{
  ℕ, String, Bool, true, false, not, ◌||◌, Option, none, some, List, [], ◌∷◌, ◌==◌, nat_eq,
  string_eq, option_eq, Outcome, ok, err, leb, if◌then◌else◌,
}
use wordsworth.Text.{is_blank}
use wordsworth.Json.{Json, null, str, num, arr, obj, Items, nil, cons, Fields, get}
use wordsworth.World.{Exc, Bytes, other}

-- `AccessError`, and what a `.get` on a value that is no dict raises
abbrev pub access_error : Exc
access_error = other "accesserror" none none

abbrev pub attribute_error : Exc
attribute_error = other "attributeerror" none none

-- What a look-up of a value that has no hash raises
abbrev pub unhashable_error : Exc
unhashable_error = other "typeerror" none none

-- `except AccessError`
abbrev is_access : Exc → Bool
is_access (other name a b) = name == "accesserror"
is_access _ = false

pub record Verifier : Type 0 where
  pub issuer : String
  pub audience : String

pub record Decoder (K : Type 0) : Type 0 where
  -- `json.loads(_b64(part))`, unless it raises
  pub load : String → Option Json
  -- `_b64(part)`, unless it raises
  pub unb64 : String → Option Bytes
  -- `key.verify(signature, message, PKCS1v15, SHA256)`: whether it does not raise
  pub verifies : K → Bytes → String → Bool
  -- `float(value)`, unless it raises a TypeError or a ValueError
  pub seconds : Json → Option ℕ

-- `token.split(".")` into just three parts, of which the first is begun with `part`.
unfoldable pub split_dots : String → String → List String
split_dots part empty = part ∷ []
split_dots part (cons_text c s) = elim (code c == 46) [
  | true ↦ part ∷ split_dots "" s
  | false ↦ split_dots (append_string part (cons_text c empty)) s
]

-- `v not in values`, of texts in a list
unfoldable pub holds : String → Items → Bool
holds a nil = false
holds a (cons (str s) js) = s == a || holds a js
holds a (cons j js) = holds a js

-- `aud if isinstance(aud, list) else [aud]`
abbrev pub audiences : Option Json → Items
audiences (some (arr js)) = js
audiences (some j) = cons j nil
audiences none = cons null nil

-- A field that has just this text.
abbrev pub is_text : Option Json → String → Bool
is_text (some (str s)) t = s == t
is_text _ t = false

-- Whether a dict can be asked for the value: a list or a dict has no hash.
abbrev pub is_hashable : Option Json → Bool
is_hashable (some (arr js)) = false
is_hashable (some (obj fs)) = false
is_hashable _ = true

-- A look-up by the value, which raises where it has no hash.
abbrev pub hashed : {A : Type 0} → Bool → Outcome Exc A → Outcome Exc A
hashed true r = r
hashed false r = err unhashable_error

-- `raise AccessError` unless the test holds.
abbrev pub demand : {A : Type 0} → Bool → Outcome Exc A → Outcome Exc A
demand true r = r
demand false r = err access_error

-- The email, which must be a text that is not blank.
unfoldable pub usable_email : Option Json → Outcome Exc String
unfolding is_blank
usable_email (some (str s)) = if is_blank s then err access_error else ok s
usable_email _ = err access_error

module _ {K : Type 0} where
  -- `keys.get(kid)`
  unfoldable pub key_of : Option Json → List (String × K) → Option K
  key_of (some (str s)) [] = none
  key_of (some (str s)) ((i, k) ∷ ks) = if i == s then some k else key_of (some (str s)) ks
  key_of _ ks = none

  module _ (d : Decoder K) where
    -- `body.get("exp", 0)` in units
    abbrev pub expiry : Option Json → Option ℕ
    expiry none = some 0
    expiry (some j) = d.seconds j

    -- The expiry, which must lie after now.
    abbrev pub unexpired : Option ℕ → ℕ → Bool
    unexpired none now = false
    unexpired (some t) now = not (leb t now)

    -- What the body of a signed assertion must say.
    unfoldable pub checked_body : Verifier → ℕ → Fields → Outcome Exc String
    unfolding holds usable_email get
    checked_body v now body = demand (holds v.audience (audiences (get "aud" body))) (
        demand (is_text (get "iss" body) v.issuer)
          (demand (unexpired (expiry (get "exp" body)) now) (usable_email (get "email" body))))

    -- `_b64(sig_raw)` and `key.verify`
    abbrev pub is_signed : K → String → String → String → Bool
    is_signed k head_raw body_raw sig_raw = elim (d.unb64 sig_raw) [
      | none ↦ false
      | some signature ↦
          d.verifies k signature (append_string head_raw (append_string "." body_raw))
    ]

    -- The key that the header names, and what it must have signed.
    unfoldable pub checked_key :
        Verifier → ℕ → Option K → String → String → String → Fields → Outcome Exc String
    unfolding checked_body
    checked_key v now none head_raw body_raw sig_raw body = err access_error
    checked_key v now (some k) head_raw body_raw sig_raw body =
        demand (is_signed k head_raw body_raw sig_raw) (checked_body v now body)

    -- The two parts that are read, which must be dicts.
    unfoldable pub checked_parts :
        Verifier
        → List (String × K)
        → ℕ
        → Json
        → Json
        → String
        → String
        → String
        → Outcome Exc String
    unfolding checked_key key_of get
    checked_parts v keys now (obj head) (obj body) head_raw body_raw sig_raw =
        demand (is_text (get "alg" head) "RS256") (
          hashed (is_hashable (get "kid" head))
            (checked_key v now (key_of (get "kid" head) keys) head_raw body_raw sig_raw body))
    checked_parts v keys now (obj head) body head_raw body_raw sig_raw =
        demand (is_text (get "alg" head) "RS256") (
          hashed (is_hashable (get "kid" head)) (elim (key_of (get "kid" head) keys) [
            | none ↦ err access_error
            | some k ↦ demand (is_signed k head_raw body_raw sig_raw) (err attribute_error)
          ]))
    checked_parts v keys now _ body head_raw body_raw sig_raw = err attribute_error

    abbrev pub loaded_parts :
        Verifier
        → List (String × K)
        → ℕ
        → Option Json
        → Option Json
        → String
        → String
        → String
        → Outcome Exc String
    unfolding checked_parts
    loaded_parts v keys now (some head) (some body) head_raw body_raw sig_raw =
        checked_parts v keys now head body head_raw body_raw sig_raw
    loaded_parts v keys now _ _ head_raw body_raw sig_raw = err access_error

    -- The three parts of a token.
    unfoldable pub from_parts : Verifier → List (String × K) → ℕ → List String → Outcome Exc String
    unfolding loaded_parts
    from_parts v keys now (head_raw ∷ body_raw ∷ sig_raw ∷ []) =
        loaded_parts v keys now (d.load head_raw) (d.load body_raw) head_raw body_raw sig_raw
    from_parts v keys now _ = err access_error

    -- `email_from`
    unfoldable pub email_from : Verifier → List (String × K) → ℕ → String → Outcome Exc String
    unfolding split_dots from_parts
    email_from v keys now token = from_parts v keys now (split_dots "" token)

    -- `caller`: who the request's token names, if it has one that is accepted
    unfoldable pub caller : Verifier → List (String × K) → ℕ → String → Outcome Exc (Option String)
    unfolding email_from
    caller v keys now token = if token == "" then ok none else (elim (email_from v keys now token) [
      | ok email ↦ ok (some email)
      | err e ↦ if is_access e then ok none else err e
    ])
