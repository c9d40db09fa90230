-- ===== src/Grants.antt =====
-- src/wordsworth/grants.py: what a grant permits, decided at the moment of a reveal. Times are
-- numbers in UTC. Sets of types are lists.
pub mod Decisions
use wordsworth.Prelude.{
  ℕ, String, Bool, true, false, not, ◌&&◌, ◌||◌, Option, none, some, List, [], ◌∷◌, ◌++◌, ◌==◌,
  nat_eq, string_eq, option_eq, Outcome, ok, err, contains, map, keep, leb, if◌then◌else◌,
}
use wordsworth.Text.{strip, upper}
use wordsworth.World.{Exc, key_error}
use wordsworth.Pipeline.{default_domain}

pub data Status : Type 0 where
  active revoked : Status

pub record Grant : Type 0 where
  pub grant_id : String
  pub recipient : String
  pub allowed_types : List String
  pub document_id : Option ℕ
  pub status : Status
  pub created_at : ℕ
  pub revoked_at : Option ℕ
  pub expires_at : Option ℕ
  pub actor : String
  pub domain : String
  pub role : Option String

-- What a caller of `authorize` says of itself and of the deployment.
pub record Request : Type 0 where
  pub document_id : Option ℕ
  pub requested_types : List String
  pub now : ℕ
  pub domain : String
  pub allow_global : Bool
  pub caller : Option String
  pub auth_enabled : Bool
  pub resolve_role : Option (String → List String)
  pub global_roles : List String

-- `_is_recipient`
unfoldable pub is_recipient : Option String → String → Bool
unfolding strip
is_recipient none recipient = false
is_recipient (some caller) recipient =
    if caller == "" || recipient == "" then false else strip caller == strip recipient

-- `if grant.role`
abbrev pub named : Option String → Option String
named none = none
named (some r) = if r == "" then none else some r

unfoldable pub permitted_types : Grant → Option (String → List String) → List String
unfolding upper
permitted_types g resolve_role = elim (named g.role) [
  | none ↦ map upper g.allowed_types
  | some r ↦ elim resolve_role [ none ↦ [] | some types ↦ map upper (types r) ]
]

-- `grant.domain or DEFAULT_DOMAIN`
abbrev pub domain_of : Grant → String
domain_of g = if g.domain == "" then default_domain else g.domain

abbrev pub is_expired : Option ℕ → ℕ → Bool
is_expired none now = false
is_expired (some t) now = leb t now

-- `grant.role and grant.role in set(global_roles)`
abbrev pub is_global_role : Option String → List String → Bool
is_global_role none roles = false
is_global_role (some r) roles = contains roles r

abbrev pub in_reach : Grant → Request → Bool
in_reach g q = elim g.document_id [
  | none ↦ q.allow_global || is_global_role (named g.role) q.global_roles
  | some d ↦ q.document_id == some d
]

abbrev pub is_active : Status → Bool
is_active active = true
is_active revoked = false

unfoldable pub authorize : Grant → Request → List String
unfolding is_recipient permitted_types upper
authorize g q =
    if not (is_active g.status)
    then []
    else if q.auth_enabled && not (is_recipient q.caller g.recipient)
    then []
    else if not (domain_of g == q.domain)
    then []
    else if is_expired g.expires_at q.now
    then []
    else if not (in_reach g q)
    then []
    else keep (contains (permitted_types g q.resolve_role)) (map upper q.requested_types)

-- `InMemoryGrantStore.get`
unfoldable pub grant_of : String → List Grant → Option Grant
grant_of i [] = none
grant_of i (g ∷ gs) = if g.grant_id == i then some g else grant_of i gs

-- An active grant is marked; any other is left as it is.
abbrev pub marked : ℕ → Grant → Grant
marked now g =
    if is_active g.status then record g { status = revoked; revoked_at = some now } else g

unfoldable pub mark_revoked : String → ℕ → List Grant → List Grant
mark_revoked i now [] = []
mark_revoked i now (g ∷ gs) =
    if g.grant_id == i then marked now g ∷ gs else g ∷ mark_revoked i now gs

-- `InMemoryGrantStore.revoke`
unfoldable pub revoke : String → ℕ → List Grant → Outcome Exc (List Grant)
unfolding grant_of mark_revoked
revoke i now gs = elim (grant_of i gs) [
  | none ↦ err key_error
  | some g ↦ ok (mark_revoked i now gs)
]
