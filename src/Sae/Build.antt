-- ===== src/Sae/Build.antt =====
-- internal/sae/task_sae.go and agentfact_sae.go: the constructors of unsigned envelopes.
-- `now_id` and `now` are the two readings of the clock that a constructor makes.
use Prim.Native.String.{◌++◌ as append}
use openclaw_p2p.Prelude.{ℕ, ◌-◌, ◌*◌, ℤ, pos, leb_ℤ, String, List, [], ◌∷◌, ◌==◌, if◌then◌else◌}
use openclaw_p2p.Clock.{Time, hour}
use openclaw_p2p.Clock
use openclaw_p2p.Text.Print.{decimal, first_chars}
use openclaw_p2p.Sae.Envelope.{SaeEnvelope, kind_task, kind_agent_fact}
use openclaw_p2p.Sae.Libs.{Libs}
use openclaw_p2p.Sae.Sign.{hash_string}

-- DefaultTTL
abbrev pub default_ttl : ℤ
default_ttl = pos (24 * hour)

abbrev pub effective_ttl : ℤ → ℤ
effective_ttl ttl = if leb_ℤ ttl (pos 0) then default_ttl else ttl

-- time.Time.UnixNano, for an instant after 1970: Go's zero time is 62135596800 s earlier
abbrev pub unix_nano : Time → ℕ
unix_nano t = t - 62135596800 * 1000000000

module _ (L : Libs) where
  unfoldable pub fresh_task_id : String → String → String → Time → String
  fresh_task_id origin taxonomy summary now_id = append "task:" (
      first_chars 32
        (hash_string L (origin ∷ taxonomy ∷ summary ∷ decimal (unix_nano now_id) ∷ [])))

  unfoldable pub fresh_fact_id : String → String → String → String → Time → String
  fresh_fact_id origin fact_kind taxonomy summary now_id = append "fact:" (
      first_chars 32
        (hash_string L (origin ∷ fact_kind ∷ taxonomy ∷ summary ∷ decimal (unix_nano now_id) ∷ [])))

  -- NewTaskSAE
  unfoldable pub new_task_sae :
      (now_id now : Time) (origin publisher task_id taxonomy summary detail_ref : String)
      (topics : List String) (conf : ℤ) (op : String) (seq : ℕ) (ttl : ℤ)
      → SaeEnvelope
  new_task_sae now_id now origin publisher task_id taxonomy summary detail_ref topics conf op seq
        ttl =
      record {
        kind = kind_task;
        origin = origin;
        publisher = publisher;
        seq = seq;
        topics = topics;
        summary = summary;
        detail_ref = detail_ref;
        expires_at = Clock.add now (effective_ttl ttl);
        sig = "";
        task_id = if task_id == "" then fresh_task_id origin taxonomy summary now_id else task_id;
        op = op;
        taxonomy = taxonomy;
        conf = conf;
        fact_id = "";
        fact_kind = "";
      }

  -- NewAgentFactSAE
  unfoldable pub new_agent_fact_sae :
      (now_id now : Time) (origin publisher fact_id fact_kind taxonomy summary detail_ref : String)
      (topics : List String) (conf : ℤ) (seq : ℕ) (ttl : ℤ)
      → SaeEnvelope
  new_agent_fact_sae now_id now origin publisher fact_id fact_kind taxonomy summary detail_ref
        topics conf seq ttl =
      record {
        kind = kind_agent_fact;
        origin = origin;
        publisher = publisher;
        seq = seq;
        topics = topics;
        summary = summary;
        detail_ref = detail_ref;
        expires_at = Clock.add now (effective_ttl ttl);
        sig = "";
        task_id = "";
        op = "";
        taxonomy = taxonomy;
        conf = conf;
        fact_id =
            if fact_id == ""
            then fresh_fact_id origin fact_kind taxonomy summary now_id
            else fact_id;
        fact_kind = fact_kind;
      }
