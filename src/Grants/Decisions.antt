-- ===== src/Grants/Decisions.antt =====
-- When a grant permits a type, and what revoking it does to that.
use wordsworth.Prelude.{
  ℕ, String, ◌≡◌, refl, Bool, false, not, ◌&&◌, ◌||◌, Option, none, some, List, [], ◌∷◌, ◌==◌,
  nat_eq, string_eq, option_eq, ok, contains, map, keep, arith, if◌then◌else◌, Bool-cases, inl, inr,
  eq_iff,
}
use wordsworth.Text.{upper}
use wordsworth.Grants.{
  Grant, Request, revoked, authorize, permitted_types, is_active, is_recipient, domain_of,
  is_expired, in_reach, grant_of, revoke, marked, mark_revoked,
}

contains-keep :
    (p : String → Bool) (x : String) (xs : List String)
    → contains (keep p xs) x ≡ (contains xs x && p x)
contains-keep p x [] = refl
contains-keep p x (y ∷ xs) = elim (Bool-cases (x == y)) [
  | inl same ↦ rw ((eq_iff x y).0 same) (ground (arith, contains-keep p y xs, eq_iff y y))
  | inr other ↦ ground (arith, contains-keep p x xs, other)
]

-- The grant is in force for the request, whatever is asked for.
pub is_open : Grant → Request → Bool
is_open g q =
    is_active g.status
    && (not q.auth_enabled || is_recipient q.caller g.recipient)
    && domain_of g == q.domain
    && not (is_expired g.expires_at q.now)
    && in_reach g q

-- A grant permits a type exactly if it is active, presented by its recipient where callers are
-- checked, of the request's domain, not expired and within reach of the document, and if the type is
-- both permitted by the grant's list or role and asked for.
pub contains-authorize :
    (g : Grant) (q : Request) (t : String)
    → contains (authorize g q) t ≡ (
        is_open g q
        && contains (map upper q.requested_types) t
        && contains (permitted_types g q.resolve_role) t)
unfolding authorize is_open
contains-authorize g q t = ground (
  arith,
  contains-keep (contains (permitted_types g q.resolve_role)) t (map upper q.requested_types),
)

abbrev pub answers : Option Grant → Request → List String
answers none q = []
answers (some g) q = authorize g q

inactive : (g : Grant) (q : Request) → is_active g.status ≡ false → authorize g q ≡ []
unfolding authorize
inactive g q e = rw e refl

marked-none : (now : ℕ) (g : Grant) (q : Request) → authorize (marked now g) q ≡ []
marked-none now g q = elim (Bool-cases (is_active g.status)) [
  | inl on ↦ rw on (inactive (record g { status = revoked; revoked_at = some now }) q refl)
  | inr off ↦ rw off (inactive g q off)
]

marked_id : (now : ℕ) (g : Grant) → (marked now g).grant_id ≡ g.grant_id
marked_id now g = ground arith

revoked_answers :
    (i j : String) (now : ℕ) (gs : List Grant) (q : Request)
    → answers (grant_of j (mark_revoked i now gs)) q
      ≡ (if i == j then [] else answers (grant_of j gs) q)
unfolding grant_of mark_revoked
revoked_answers i j now [] q = ground arith
revoked_answers i j now (g ∷ gs) q = ground (
  arith,
  revoked_answers i j now gs q,
  marked_id now g,
  marked-none now g q,
  eq_iff g.grant_id i,
  eq_iff g.grant_id j,
  eq_iff i j,
)

-- Revoking a grant that is there succeeds; it then authorises nothing, whatever is asked, and every
-- other grant authorises what it did.
pub authorize-revoke :
    (i j : String) (now : ℕ) (gs : List Grant) (g : Grant) (q : Request)
    → grant_of i gs ≡ some g
    → (hs : List Grant) × (revoke i now gs ≡ ok hs)
      × (answers (grant_of j hs) q ≡ (if i == j then [] else answers (grant_of j gs) q))
unfolding revoke
authorize-revoke i j now gs g q there =
    (mark_revoked i now gs, rw (there, revoke) refl, revoked_answers i j now gs q)
