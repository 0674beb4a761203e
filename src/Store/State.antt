-- ===== src/Store/State.antt =====
-- internal/p2p/store.go: the data that a store keeps. The mutex makes each method one step.
use openclaw_p2p.Prelude.{ℕ, ℤ, pos, String, Bool, List, [], Option}
use openclaw_p2p.Error.{Error}
use openclaw_p2p.Clock.{Time}
use openclaw_p2p.GoMap.{GoMap}
use openclaw_p2p.Sae.Envelope.{SaeEnvelope}
use openclaw_p2p.Sae.Libs.{Bytes}
use openclaw_p2p.Negotiate.Frame.{NegotiationFrame}
use openclaw_p2p.Store.Files.{JsonFile}

pub data TaskStatus : Type 0 where
  active complete withdrawn expired : TaskStatus

pub record TaskState : Type 0 where
  pub key : String
  pub origin : String
  pub task_id : String
  pub last_seq : ℕ
  pub status : TaskStatus
  pub envelope : SaeEnvelope
  pub updated_at : Time
  pub expires_at : Time

pub record FactState : Type 0 where
  pub key : String
  pub origin : String
  pub fact_id : String
  pub fact_kind : String
  pub last_seq : ℕ
  pub envelope : SaeEnvelope
  pub updated_at : Time
  pub expires_at : Time

pub record KnownPeer : Type 0 where
  pub id : String
  pub addrs : List String
  pub last_seen : Time

pub record StoredPayload : Type 0 where
  pub ref : String
  pub owner_peer_id : String
  pub kind : String
  pub object_id : String
  pub version : String
  pub content_type : String
  pub content : Bytes
  pub sha256 : String
  pub updated_at : Time
  pub expires_at : Time

pub record NegotiationSession : Type 0 where
  pub session_id : String
  pub ref_id : String
  pub peer_id : String
  pub state : String
  pub frames : List NegotiationFrame
  pub updated_at : Time

-- The text of an event's reason; an error stands for its message.
pub data Reason : Type 0 where
  text : String → Reason
  message : Error → Reason

pub record EventLogEntry : Type 0 where
  pub timestamp : Time
  pub event_type : String
  pub applied : Bool
  pub reason : Reason
  pub peer_id : String
  pub envelope : Option SaeEnvelope
  pub frame : Option NegotiationFrame

pub record PeerRate : Type 0 where
  pub window_start : Time
  pub count : ℤ

-- `Store`, with its files: the five JSON files and the lines of events.jsonl.
pub record Store : Type 0 where
  pub tasks : GoMap TaskState
  pub facts : GoMap FactState
  pub payloads : GoMap StoredPayload
  pub peers : GoMap KnownPeer
  pub negotiations : GoMap NegotiationSession
  pub rates : GoMap PeerRate
  pub tasks_json : JsonFile (GoMap TaskState)
  pub facts_json : JsonFile (GoMap FactState)
  pub payloads_json : JsonFile (GoMap StoredPayload)
  pub peers_json : JsonFile (GoMap KnownPeer)
  pub negotiations_json : JsonFile (GoMap NegotiationSession)
  pub events : List EventLogEntry

abbrev pub zero_envelope : SaeEnvelope
zero_envelope = record {
  kind = "";
  origin = "";
  publisher = "";
  seq = 0;
  topics = [];
  summary = "";
  detail_ref = "";
  expires_at = 0;
  sig = "";
  task_id = "";
  op = "";
  taxonomy = "";
  conf = pos 0;
  fact_id = "";
  fact_kind = "";
}

-- TaskState{}; a status of "" is not one of the enumeration, and no caller reads it.
abbrev pub zero_task : TaskState
zero_task = record {
  key = "";
  origin = "";
  task_id = "";
  last_seq = 0;
  status = active;
  envelope = zero_envelope;
  updated_at = 0;
  expires_at = 0;
}

-- FactState{}
abbrev pub zero_fact : FactState
zero_fact = record {
  key = "";
  origin = "";
  fact_id = "";
  fact_kind = "";
  last_seq = 0;
  envelope = zero_envelope;
  updated_at = 0;
  expires_at = 0;
}
