-- ===== src/Examples/Samples.antt =====
-- The host, the worlds and the services that the examples run on.
use wordsworth.Prelude.{ℕ, zero, suc, String, none, some, [], ◌∷◌, ok, err, Outcome}
use wordsworth.Json.{end}
use wordsworth.World.{World, Exc, Bytes, timeout_error}
use wordsworth.Audit.{Host, genesis_hash}
use wordsworth.Pipeline.{Arrival}
use wordsworth.Pipeline.Services.{Services, Anonymized}

abbrev pub host : Host
host = record {
  sha256 = λ _. genesis_hash;
  sha256_bytes = λ _. "5feceb66";
  isoformat = λ _. "2026-01-01T00:00:00+00:00";
  isoformat_given = λ _. "2026-01-01T01:00:00+01:00";
  uuid_text = λ _. "00000000-0000-0000-0000-000000000001";
}

abbrev pub empty_world : World
empty_world = record {
  documents = [];
  trail = [];
  texts = [];
  pseudonyms = [];
  dossiers = [];
  members = [];
  topics = [];
  mappings = [];
  grants = [];
  lifecycle = [];
  objects = [];
  index = [];
  next_seq = 1;
  next_id = 1;
  clock = λ n. n;
  reads = 0;
  calls = 0;
  slept = [];
  retries = [];
}

abbrev pub arrival : Arrival
arrival = record {
  domain = "_global";
  filename = some "besluit.pdf";
  source_url = none;
  fetched_at = none;
}

abbrev pub pdf : Bytes
pdf = 37 ∷ 80 ∷ 68 ∷ 70 ∷ []

-- An anonymiser that is unreachable at its first call.
abbrev pub flaky : ℕ → String → Outcome Exc Anonymized
flaky zero s = err timeout_error
flaky (suc n) s = ok (record { text = s; counts = []; detections = end; lists_hash = none })

abbrev pub services : Services
services = record {
  measure = λ _. some (500, 1);
  positioned_text = λ _. some "besluit op bezwaar";
  anonymize = flaky;
  embed = λ _ _. ok (1 ∷ 0 ∷ []);
  index_up = λ _. ok tt;
  retry_attempts = 3;
  retry_base_delay = 10;
}
