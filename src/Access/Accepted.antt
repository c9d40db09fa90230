-- ===== src/Access/Accepted.antt =====
-- Just the assertions that are signed, current and meant for this application name somebody.
use wordsworth.Prelude.{
  ℕ, String, ◌≡◌, refl, Bool, true, false, Option, none, some, List, [], ◌∷◌, string_eq, Outcome,
  ok, err, ◌↔◌, inl, inr, Bool-cases,
}
use wordsworth.Text.{is_blank}
use wordsworth.Json.{Json, null, boolean, num, float, str, arr, obj, Fields, get}
use wordsworth.World.{Exc}
use wordsworth.Access.{
  Verifier, Decoder, access_error, attribute_error, is_hashable, hashed, demand, holds, audiences,
  is_text, usable_email, key_of, expiry, unexpired, checked_body, is_signed, checked_key,
  checked_parts, loaded_parts, from_parts, split_dots, email_from,
}

demand-ok :
    {A : Type 0} (b : Bool) (r : Outcome Exc A) (a : A)
    → demand b r ≡ ok a
    → (b ≡ true) × (r ≡ ok a)
demand-ok true r a e = (refl, e)
demand-ok false r a e = absurd (cc e)

hashed-ok : {A : Type 0} (b : Bool) (r : Outcome Exc A) (a : A) → hashed b r ≡ ok a → r ≡ ok a
hashed-ok true r a e = e
hashed-ok false r a e = absurd (cc e)

key_of-is_hashable :
    {K : Type 0} (j : Option Json) (keys : List (String × K)) (k : K)
    → key_of j keys ≡ some k
    → is_hashable j ≡ true
unfolding key_of
key_of-is_hashable none keys k e = refl
key_of-is_hashable (some null) keys k e = refl
key_of-is_hashable (some (boolean b)) keys k e = refl
key_of-is_hashable (some (num n)) keys k e = refl
key_of-is_hashable (some (float s)) keys k e = refl
key_of-is_hashable (some (str s)) keys k e = refl
key_of-is_hashable (some (arr js)) keys k e = absurd (cc e)
key_of-is_hashable (some (obj fs)) keys k e = absurd (cc e)

usable-ok :
    (o : Option Json) (email : String)
    → usable_email o ≡ ok email
    → (o ≡ some (str email)) × (is_blank email ≡ false)
unfolding usable_email
usable-ok none email e = absurd (cc e)
usable-ok (some (str s)) email e = elim (Bool-cases (is_blank s)) [
  | inl blank ↦ absurd (cc (rw blank at e))
  | inr said ↦ let e' : ok s ≡ ok email = rw said at e in (cc e', cc (e', said))
]
usable-ok (some null) email e = absurd (cc e)
usable-ok (some (boolean b)) email e = absurd (cc e)
usable-ok (some (num n)) email e = absurd (cc e)
usable-ok (some (float s)) email e = absurd (cc e)
usable-ok (some (arr js)) email e = absurd (cc e)
usable-ok (some (obj fs)) email e = absurd (cc e)

module _ {K : Type 0} (d : Decoder K) (v : Verifier) (keys : List (String × K)) (now : ℕ) where
  -- The token is three parts of which the first two are dicts; the header names RS256 and a known key
  -- that signed both; and the body is for this application, from its issuer, not expired, and names
  -- the email.
  pub record IsAccepted (token email : String) : Type 0 where
    pub head_raw : String
    pub body_raw : String
    pub sig_raw : String
    pub head : Fields
    pub body : Fields
    pub key : K
    pub parts : split_dots "" token ≡ head_raw ∷ body_raw ∷ sig_raw ∷ []
    pub head_read : d.load head_raw ≡ some (obj head)
    pub body_read : d.load body_raw ≡ some (obj body)
    pub algorithm : is_text (get "alg" head) "RS256" ≡ true
    pub key_known : key_of (get "kid" head) keys ≡ some key
    pub signed : is_signed d key head_raw body_raw sig_raw ≡ true
    pub audience : holds v.audience (audiences (get "aud" body)) ≡ true
    pub issuer : is_text (get "iss" body) v.issuer ≡ true
    pub current : unexpired d (expiry d (get "exp" body)) now ≡ true
    pub names : get "email" body ≡ some (str email)
    pub said : is_blank email ≡ false

  accepted :
      (token email : String) → IsAccepted token email → email_from d v keys now token ≡ ok email
  unfolding email_from from_parts checked_parts checked_key checked_body usable_email
  accepted token email a =
      rw
        (
          a.parts,
          a.head_read,
          a.body_read,
          a.algorithm,
          key_of-is_hashable (get "kid" a.head) keys a.key a.key_known,
          a.key_known,
          a.signed,
          a.audience,
          a.issuer,
          a.current,
          a.names,
          a.said,
        )
        refl

  -- What each step that came through tells.
  parts-ok :
      (ps : List String) (email : String)
      → from_parts d v keys now ps ≡ ok email
      → (h : String) × (b : String) × (s : String) × (ps ≡ h ∷ b ∷ s ∷ [])
        × (loaded_parts d v keys now (d.load h) (d.load b) h b s ≡ ok email)
  unfolding from_parts
  parts-ok [] email e = absurd (cc e)
  parts-ok (h ∷ []) email e = absurd (cc e)
  parts-ok (h ∷ b ∷ []) email e = absurd (cc e)
  parts-ok (h ∷ b ∷ s ∷ []) email e = (h, b, s, refl, e)
  parts-ok (h ∷ b ∷ s ∷ t ∷ ps) email e = absurd (cc e)

  loaded-ok :
      (o p : Option Json) (h b s email : String)
      → loaded_parts d v keys now o p h b s ≡ ok email
      → (i : Json) × (j : Json) × (o ≡ some i)
        × (p ≡ some j)
        × (checked_parts d v keys now i j h b s ≡ ok email)
  unfolding loaded_parts
  loaded-ok none none h b s email e = absurd (cc e)
  loaded-ok none (some j) h b s email e = absurd (cc e)
  loaded-ok (some i) none h b s email e = absurd (cc e)
  loaded-ok (some i) (some j) h b s email e = (i, j, refl, refl, e)

  -- Both parts are dicts, the algorithm is right, and the rest came through.
  IsSigned : Json → Json → String → String → String → String → Type 0
  IsSigned i j h b s email =
      (head : Fields) × (body : Fields) × (i ≡ obj head)
      × (j ≡ obj body)
      × (is_text (get "alg" head) "RS256" ≡ true)
      × (checked_key d v now (key_of (get "kid" head) keys) h b s body ≡ ok email)

  key-ok :
      (o : Option K) (h b s email : String) (body : Fields)
      → checked_key d v now o h b s body ≡ ok email
      → (k : K) × (o ≡ some k)
        × (is_signed d k h b s ≡ true)
        × (checked_body d v now body ≡ ok email)
  unfolding checked_key
  key-ok none h b s email body e = absurd (cc e)
  key-ok (some k) h b s email body e =
      let (signed, rest) = demand-ok (is_signed d k h b s) (checked_body d v now body) email e in
      (k, refl, signed, rest)

  -- A body that is no dict raises.
  no_dict :
      (o : Option K) (a a' : Bool) (h b s email : String)
      → demand {A = String} a (
          hashed {A = String} a' (elim o [
            | none ↦ err access_error
            | some k ↦ demand (is_signed d k h b s) (err attribute_error)
          ]))
        ≡ ok email
      → ⊥
  no_dict o false a' h b s email e = cc e
  no_dict o true false h b s email e = cc e
  no_dict none true true h b s email e = cc e
  no_dict (some k) true true h b s email e =
      let (signed, rest) =
        demand-ok {A = String} (is_signed d k h b s) (err attribute_error) email e in
      cc rest

  json-ok :
      (i j : Json) (h b s email : String)
      → checked_parts d v keys now i j h b s ≡ ok email
      → IsSigned i j h b s email
  unfolding checked_parts IsSigned
  json-ok (obj head) (obj body) h b s email e =
      let (right, rest) = demand-ok (is_text (get "alg" head) "RS256") _ email e in
      (head, body, refl, refl, right, hashed-ok (is_hashable (get "kid" head)) _ email rest)
  json-ok (obj head) null h b s email e = absurd (no_dict _ _ _ h b s email e)
  json-ok (obj head) (boolean x) h b s email e = absurd (no_dict _ _ _ h b s email e)
  json-ok (obj head) (num n) h b s email e = absurd (no_dict _ _ _ h b s email e)
  json-ok (obj head) (float f) h b s email e = absurd (no_dict _ _ _ h b s email e)
  json-ok (obj head) (str t) h b s email e = absurd (no_dict _ _ _ h b s email e)
  json-ok (obj head) (arr js) h b s email e = absurd (no_dict _ _ _ h b s email e)
  json-ok null j h b s email e = absurd (cc e)
  json-ok (boolean x) j h b s email e = absurd (cc e)
  json-ok (num n) j h b s email e = absurd (cc e)
  json-ok (float f) j h b s email e = absurd (cc e)
  json-ok (str t) j h b s email e = absurd (cc e)
  json-ok (arr js) j h b s email e = absurd (cc e)

  came_through :
      (token email : String) → email_from d v keys now token ≡ ok email → IsAccepted token email
  unfolding email_from checked_body IsSigned
  came_through token email e =
      let (h, b, s, three, loaded) = parts-ok (split_dots "" token) email e in
      let (i, j, head_there, body_there, checked) =
        loaded-ok (d.load h) (d.load b) h b s email loaded in
      let (head, body, head_is, body_is, right, keyed) = json-ok i j h b s email checked in
      let (k, known, signed, said) = key-ok (key_of (get "kid" head) keys) h b s email body keyed in
      let (aud, rest) = demand-ok (holds v.audience (audiences (get "aud" body))) _ email said in
      let (iss, rest) = demand-ok (is_text (get "iss" body) v.issuer) _ email rest in
      let (now_valid, rest) =
        demand-ok (unexpired d (expiry d (get "exp" body)) now) _ email rest in
      let (named, spoken) = usable-ok (get "email" body) email rest in
      record {
        head_raw = h;
        body_raw = b;
        sig_raw = s;
        head = head;
        body = body;
        key = k;
        parts = three;
        head_read = rw head_is at head_there;
        body_read = rw body_is at body_there;
        algorithm = right;
        key_known = known;
        signed = signed;
        audience = aud;
        issuer = iss;
        current = now_valid;
        names = named;
        said = spoken;
      }

  -- `email_from` returns an email just if the token is three parts of which the first two are dicts,
  -- the header names RS256 and a known key that signed both, and the body is for this application,
  -- from its issuer, not expired, and names that email, which is not blank.
  pub email_from-IsAccepted :
      (token email : String) → (email_from d v keys now token ≡ ok email) ↔ IsAccepted token email
  email_from-IsAccepted token email = (came_through token email, accepted token email)
