-- ===== src/Store/Facts.antt =====
-- internal/p2p/store.go: `factKey`, `NextFactSeq`, `ApplyFact`.
pub mod Merge
use Prim.Native.String.{◌++◌ as append}
use openclaw_p2p.Prelude.{
  ℕ, String, Bool, true, false, not, Option, none, some, ◌==◌, leb, if◌then◌else◌,
}
use openclaw_p2p.Error.{not_agent_fact, err, Check, nil}
use openclaw_p2p.Clock.{Time, after}
use openclaw_p2p.GoMap.{get, put}
use openclaw_p2p.Sae.Envelope.{SaeEnvelope, kind_agent_fact}
use openclaw_p2p.Store.Files.{WriteOutcome, write_json_atomic}
use openclaw_p2p.Store.State.{FactState, zero_fact, Store}
use openclaw_p2p.Store.Tasks.{next_seq}

unfoldable pub fact_key : String → String → String
fact_key origin fact_id = append origin (append "::" fact_id)

abbrev pub seq_after_fact : Option FactState → ℕ
seq_after_fact none = 1
seq_after_fact (some state) = next_seq state.last_seq

unfoldable pub next_fact_seq : String → String → Store → ℕ
next_fact_seq origin fact_id s = seq_after_fact (get (fact_key origin fact_id) s.facts)

-- What `ApplyFact` returns.
pub record FactResult : Type 0 where
  pub state : FactState
  pub applied : Bool
  pub reason : String
  pub error : Check

abbrev pub fact_of : Time → SaeEnvelope → FactState
fact_of now env = record {
  key = fact_key env.origin env.fact_id;
  origin = env.origin;
  fact_id = env.fact_id;
  fact_kind = env.fact_kind;
  last_seq = env.seq;
  envelope = env;
  updated_at = now;
  expires_at = env.expires_at;
}

store_fact : WriteOutcome → Time → SaeEnvelope → Store → FactResult × Store
store_fact out now env s =
    let next = fact_of now env in
    let facts = put next.key next s.facts in
    let (error, file) = write_json_atomic out facts s.facts_json in
    (
      record { state = next; applied = true; reason = "applied"; error = error },
      record s { facts = facts; facts_json = file },
    )

abbrev pub refuse_fact : FactState → String → Check → Store → FactResult × Store
refuse_fact state reason error s =
    (record { state = state; applied = false; reason = reason; error = error }, s)

-- the test on `current, exists := s.facts[key]`
admit_fact : WriteOutcome → Time → SaeEnvelope → Store → Option FactState → FactResult × Store
unfolding store_fact
admit_fact out now env s none = store_fact out now env s
admit_fact out now env s (some current) =
    if leb env.seq current.last_seq
    then refuse_fact current "replay_or_old" nil s
    else store_fact out now env s

unfoldable pub apply_fact : WriteOutcome → Time → SaeEnvelope → Store → FactResult × Store
unfolding admit_fact
apply_fact out now env s =
    if not (env.kind == kind_agent_fact)
    then refuse_fact zero_fact "" (err not_agent_fact) s
    else if after now env.expires_at
    then refuse_fact zero_fact "expired" nil s
    else admit_fact out now env s (get (fact_key env.origin env.fact_id) s.facts)
