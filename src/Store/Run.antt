-- ===== src/Store/Run.antt =====
-- The life of a store within one process: any interleaving of its methods, each one step under the
-- mutex, with any inputs.
pub mod Durable
pub mod Hold
pub mod Filed
pub mod Monotone
use openclaw_p2p.Prelude.{◌≡◌, String, ℤ, List, Option}
use openclaw_p2p.Error.{Error}
use openclaw_p2p.Clock.{Time}
use openclaw_p2p.Sae.Envelope.{SaeEnvelope}
use openclaw_p2p.Negotiate.Frame.{NegotiationFrame}
use openclaw_p2p.Store.Files.{written, WriteOutcome}
use openclaw_p2p.Store.State.{Store, StoredPayload, EventLogEntry}
use openclaw_p2p.Store.Tasks.{apply_task}
use openclaw_p2p.Store.Facts.{apply_fact}
use openclaw_p2p.Store.Rates.{allow_peer}
use openclaw_p2p.Store.Records.{upsert_payload, record_peer, record_negotiation, append_event}
use openclaw_p2p.Store.Gc.{GcInputs, gc_expired}
use openclaw_p2p.Store.Gc.Effect.{AreRanges}

-- One method call, where `Writes` says how the writes may end.
pub data Step (Writes : WriteOutcome → Type 0) : Store → Store → Type 0 where
  applies_task :
      (out : WriteOutcome) (now : Time) (env : SaeEnvelope) (s : Store)
      → Writes out
      → Step Writes s (apply_task out now env s).1
  applies_fact :
      (out : WriteOutcome) (now : Time) (env : SaeEnvelope) (s : Store)
      → Writes out
      → Step Writes s (apply_fact out now env s).1
  upserts_payload :
      (out : WriteOutcome) (payload : StoredPayload) (s : Store)
      → Writes out
      → Step Writes s (upsert_payload out payload s).1
  records_peer :
      (out : WriteOutcome) (now : Time) (id : String) (addrs : List String) (s : Store)
      → Writes out
      → Step Writes s (record_peer out now id addrs s).1
  allows_peer :
      (now : Time) (peer_id : String) (limit : ℤ) (s : Store)
      → Step Writes s (allow_peer now peer_id limit s).1
  records_negotiation :
      (out : WriteOutcome) (now : Time) (frame : NegotiationFrame) (s : Store)
      → Writes out
      → Step Writes s (record_negotiation out now frame s).1
  appends_event :
      (fault : Option Error) (now : Time) (entry : EventLogEntry) (s : Store)
      → Step Writes s (append_event fault now entry s).1
  collects :
      (i : GcInputs) (now : Time) (s : Store)
      → AreRanges i s
      → Writes i.tasks_out
      → Writes i.facts_out
      → Writes i.payloads_out
      → Step Writes s (gc_expired i now s).1

-- Any number of calls.
pub data Run (Writes : WriteOutcome → Type 0) (s : Store) : Store → Type 0 where
  start : Run Writes s s
  then_step : {t u : Store} → Run Writes s t → Step Writes t u → Run Writes s u

abbrev pub Succeeds : WriteOutcome → Type 0
Succeeds out = out ≡ written

abbrev pub AnyOutcome : WriteOutcome → Type 0
AnyOutcome out = Unit
