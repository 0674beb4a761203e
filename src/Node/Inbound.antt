-- ===== src/Node/Inbound.antt =====
-- internal/p2p/node.go: `handleEnvelope`; internal/p2p/gossip.go: `readLoop`.
pub mod Gate
pub mod Accepted
pub mod Origins
use openclaw_p2p.Prelude.{
  true, String, Bool, false, ◌==◌, List, [], ◌∷◌, Option, none, some, if◌then◌else◌,
}
use openclaw_p2p.Error.{Error, unsupported_kind, Result, ok, err, Check}
use openclaw_p2p.Exec.{Exec}
use openclaw_p2p.Clock.{Time}
use openclaw_p2p.Sae.Envelope.{SaeEnvelope, kind_task, kind_agent_fact}
use openclaw_p2p.Sae.Libs.{Libs, Bytes}
use openclaw_p2p.Sae.Validate.{decode_envelope}
use openclaw_p2p.Store.Files.{WriteOutcome}
use openclaw_p2p.Store.State.{Store, EventLogEntry, Reason, text, message}
use openclaw_p2p.Store.Tasks.{apply_task}
use openclaw_p2p.Store.Facts.{apply_fact}
use openclaw_p2p.Store.Records.{append_event}
use openclaw_p2p.Node.State.{Node, enforce_envelope_policy}

-- What the clock and the disk answer while one envelope is handled.
pub record InboundInputs : Type 0 where
  pub policy_now : Time
  pub apply_now : Time
  pub out : WriteOutcome
  pub event_now : Time
  pub event_fault : Option Error

-- the entry of an event about an envelope; AppendEvent stamps the zero time
abbrev pub envelope_event : String → Bool → Reason → String → SaeEnvelope → EventLogEntry
envelope_event event_type applied reason peer_id env = record {
  timestamp = 0;
  event_type = event_type;
  applied = applied;
  reason = reason;
  peer_id = peer_id;
  envelope = some env;
  frame = none;
}

module _ (L : Libs) where
  -- _ = n.Store.AppendEvent(…)
  abbrev pub logged : InboundInputs → EventLogEntry → Store → Store
  logged i entry s = (append_event i.event_fault i.event_now entry s).1

  abbrev pub receive_task : InboundInputs → SaeEnvelope → Exec (Node L) (Unit {0})
  receive_task i env n =
      let (r, s) = apply_task i.out i.apply_now env n.store in
      (
        r.error,
        record n {
          store =
              logged i (envelope_event "task_received" r.applied (text r.reason) env.publisher env)
                s;
        },
      )

  abbrev pub receive_fact : InboundInputs → SaeEnvelope → Exec (Node L) (Unit {0})
  receive_fact i env n =
      let (r, s) = apply_fact i.out i.apply_now env n.store in
      (
        r.error,
        record n {
          store =
              logged i (envelope_event "fact_received" r.applied (text r.reason) env.publisher env)
                s;
        },
      )

  -- the switch on env.Kind
  abbrev pub dispatch : InboundInputs → SaeEnvelope → Exec (Node L) (Unit {0})
  dispatch i env n =
      if env.kind == kind_task
      then receive_task i env n
      else if env.kind == kind_agent_fact
      then receive_fact i env n
      else (err (unsupported_kind env.kind), n)

  abbrev pub reject : InboundInputs → SaeEnvelope → Error → Exec (Node L) (Unit {0})
  reject i env e n = (
    err e,
    record n {
      store = logged i (envelope_event "sae_rejected" false (message e) env.publisher env) n.store;
    },
  )

  abbrev pub after_policy : InboundInputs → SaeEnvelope → Check → Node L → Check × Node L
  after_policy i env (ok _) n = dispatch i env n
  after_policy i env (err e) n = reject i env e n

  unfoldable pub handle_envelope : InboundInputs → SaeEnvelope → Exec (Node L) (Unit {0})
  handle_envelope i env n =
      let (check, n') = enforce_envelope_policy L i.policy_now env true n in
      after_policy i env check n'

  -- A message of a subscription, with what is answered while it is handled.
  pub record Message : Type 0 where
    pub from_self : Bool
    pub content : Bytes
    pub inputs : InboundInputs

  abbrev pub handle_decoded : Message → Result SaeEnvelope → Node L → Node L
  handle_decoded m (ok env) n = (handle_envelope m.inputs env n).1
  handle_decoded m (err e) n = n

  -- `readLoop` over the messages that arrive until the subscription ends
  unfoldable pub read_loop : List Message → Node L → Node L
  read_loop [] n = n
  read_loop (m ∷ rest) n =
      read_loop rest (if m.from_self then n else handle_decoded m (decode_envelope L m.content) n)
