-- ===== src/Audit.antt =====
-- src/wordsworth/hashing.py and src/wordsworth/audit.py: the hash-chained audit trail. The trail is
-- the list of the records in the order of `seq`, so `order by seq desc limit 1` is `latest`.
-- `hashlib.sha256` and `datetime.isoformat` are the parameter `Host`.
pub mod Records
pub mod Chain
pub mod Tamper
pub mod Lawful
pub mod Actions
use Prim.Native.String.{◌++◌}
use wordsworth.Prelude.{
  ℕ, suc, ◌+◌, String, Bool, true, false, Option, none, some, List, [], ◌∷◌, ◌==◌, nat_eq,
  string_eq, latest, Exec, Outcome, ok, err, ◌>>=◌, if◌then◌else◌, ltb, keep, map,
}
use mathlib.Core.List.{◌++◌ as append_list}
use wordsworth.Json.{Json, null, str, num, obj, Fields, end, field}
use wordsworth.Json.Dumps.{dumps, compact, spaced}
use wordsworth.States.{State, value}
use wordsworth.World.{World, Db, AuditRecord, now}

-- What the code takes from its host.
pub record Host : Type 0 where
  -- `hashlib.sha256(s.encode("utf-8")).hexdigest()`
  pub sha256 : String → String
  -- `hashlib.sha256(data).hexdigest()` of bytes
  pub sha256_bytes : List ℕ → String
  -- `ts.astimezone(timezone.utc).isoformat()`
  pub isoformat : ℕ → String
  -- `ts.isoformat()`, in the zone that the time was given in
  pub isoformat_given : ℕ → String
  -- `str(uuid)`
  pub uuid_text : ℕ → String

abbrev pub genesis_hash : String
genesis_hash = "0000000000000000000000000000000000000000000000000000000000000000"

abbrev state_json : Option State → Json
state_json none = null
state_json (some s) = str (value s)

module _ (h : Host) where
  -- `canonical_content`
  unfoldable pub canonical_content : ℕ → Option State → State → ℕ → String → Fields → String
  unfolding value dumps
  canonical_content document_id from_state to_state ts step payload = dumps compact (
      obj (
        field "document_id" (str (h.uuid_text document_id)) (
          field "from_state" (state_json from_state) (
            field "to_state" (str (value to_state)) (
              field "ts" (str (h.isoformat ts))
                (field "step" (str step) (field "payload" (obj payload) end)))))))

  unfoldable pub compute_hash : String → String → String
  compute_hash prev_hash content = h.sha256 (prev_hash ++ content)

  -- `canonical_content` of a record's own fields
  abbrev pub content_of : AuditRecord → String
  content_of r = canonical_content r.document_id r.from_state r.to_state r.ts r.step r.payload

  -- `tail or GENESIS_HASH`
  unfoldable pub tail_hash : List AuditRecord → String
  tail_hash trail = elim (latest (λ _. true) trail) [
    | none ↦ genesis_hash
    | some r ↦ if r.hash == "" then genesis_hash else r.hash
  ]

  unfoldable pub append : ℕ → Option State → State → String → Fields → Db AuditRecord
  unfolding now tail_hash compute_hash
  append document_id from_state to_state step payload = do
    ts ← now
    λ w.
        let prev = tail_hash w.trail in
        let content = canonical_content document_id from_state to_state ts step payload in
        let r : AuditRecord = record {
          seq = w.next_seq;
          document_id = document_id;
          from_state = from_state;
          to_state = to_state;
          ts = ts;
          step = step;
          payload = payload;
          prev_hash = prev;
          hash = compute_hash prev content;
        } in
        (ok r, record w { trail = append_list w.trail (r ∷ []); next_seq = suc w.next_seq })

  -- The loop of `verify_chain`: whether the chain holds, and else the first bad `seq`.
  unfoldable pub verify_from : String → List AuditRecord → Bool × Option ℕ
  unfolding compute_hash
  verify_from prev [] = (true, none)
  verify_from prev (r ∷ rest) =
      let later = verify_from r.hash rest in
      if r.prev_hash == prev
      then (if compute_hash r.prev_hash (content_of r) == r.hash
          then later
          else (false, some r.seq))
      else (false, some r.seq)

  unfoldable pub verify_chain : World → Bool × Option ℕ
  unfolding verify_from
  verify_chain w = verify_from genesis_hash w.trail

  -- One line of `export_jsonl`.
  unfoldable pub export_line : AuditRecord → String
  unfolding value dumps
  export_line r = dumps spaced (
      obj (
        field "seq" (num r.seq) (
          field "document_id" (str (h.uuid_text r.document_id)) (
            field "from_state" (state_json r.from_state) (
              field "to_state" (str (value r.to_state)) (
                field "ts" (str (h.isoformat r.ts)) (
                  field "step" (str r.step) (
                    field "payload" (obj r.payload)
                      (field "prev_hash" (str r.prev_hash) (field "hash" (str r.hash) end))))))))))

  -- `"\n".join(lines)`
  unfoldable pub join_lines : List String → String
  join_lines [] = ""
  join_lines (l ∷ []) = l
  join_lines (l ∷ m ∷ rest) = l ++ "\n" ++ join_lines (m ∷ rest)

  unfoldable pub export_jsonl : ℕ → World → String
  unfolding export_line join_lines
  export_jsonl after_seq w = join_lines (map export_line (keep (λ r. ltb after_seq r.seq) w.trail))

-- `current_state` on the trail
unfoldable pub state_in : ℕ → List AuditRecord → Option State
state_in document_id trail = elim (latest (λ r. r.document_id == document_id) trail) [
  | none ↦ none
  | some r ↦ some r.to_state
]

unfoldable pub current_state : ℕ → World → Option State
unfolding state_in
current_state document_id w = state_in document_id w.trail
