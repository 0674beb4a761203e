-- ===== src/Store/Open/Recovery.antt =====
-- What a restart finds: the files hold the maps of the store after any operations whose writes
-- succeeded, and a failed write leaves the file of the last successful one.
use openclaw_p2p.Sae.Libs.{Bytes}
use openclaw_p2p.Sae.Envelope.{SaeEnvelope}
use openclaw_p2p.Clock.{Time}
use openclaw_p2p.Store.Tasks.{apply_task}
use openclaw_p2p.Error.{nil, ok}
use openclaw_p2p.GoMap.{GoMap}
use openclaw_p2p.Prelude.{arith, refl, inl, inr, none, ◌≡◌, [], ◌⊎◌}
use openclaw_p2p.Store.Open.{same_value, reread_payloads, load, OpenInputs, open_store}
use openclaw_p2p.Store.Files.{written, write_json_atomic, read_json, JsonFile, absent, holds}
use openclaw_p2p.Store.State.{Store}

-- The file has the text of the map, or is not there for an empty one.
abbrev pub Saves : {V : Type 0} → JsonFile (GoMap V) → GoMap V → Type 0
Saves file m = ((file.target ≡ absent) × (m ≡ [])) ⊎ (file.target ≡ holds m)

pub record IsDurable (s : Store) : Type 0 where
  pub tasks : Saves s.tasks_json s.tasks
  pub facts : Saves s.facts_json s.facts
  pub payloads : Saves s.payloads_json s.payloads
  pub peers : Saves s.peers_json s.peers
  pub negotiations : Saves s.negotiations_json s.negotiations

read_json-Saves :
    {V : Type 0} (decoded : GoMap V → GoMap V) (file : JsonFile (GoMap V)) (m : GoMap V)
    → decoded [] ≡ []
    → Saves file m
    → read_json decoded none file.target [] ≡ ok (decoded m)
unfolding read_json
read_json-Saves decoded file m e (inl h) = rw (h.0, h.1, e) refl
read_json-Saves decoded file m e (inr h) = rw h refl

abbrev pub no_faults : (Bytes → Bytes) → OpenInputs
no_faults indented = record {
  mkdir = nil;
  tasks = none;
  facts = none;
  payloads = none;
  peers = none;
  negotiations = none;
  indented = indented;
}

-- Opening the files of a store whose writes have all succeeded gives back its five maps, but for the
-- raw details of the payloads, which come back as they are laid out in the file, and its event log;
-- the rate windows start afresh.
pub open_store-IsDurable :
    (indented : Bytes → Bytes) (s : Store)
    → IsDurable s
    → open_store (no_faults indented) s
      ≡ ok (record s { payloads = reread_payloads indented s.payloads; rates = [] })
unfolding open_store load reread_payloads
open_store-IsDurable indented s d = rw (
  read_json-Saves same_value s.tasks_json s.tasks refl d.tasks,
  read_json-Saves same_value s.facts_json s.facts refl d.facts,
  read_json-Saves (reread_payloads indented) s.payloads_json s.payloads refl d.payloads,
  read_json-Saves same_value s.peers_json s.peers refl d.peers,
  read_json-Saves same_value s.negotiations_json s.negotiations refl d.negotiations,
)

write-Saves :
    {V : Type 0} (m : GoMap V) (file : JsonFile (GoMap V))
    → Saves (write_json_atomic written m file).1 m
unfolding write_json_atomic
write-Saves m file = inr refl

apply_task-IsDurable :
    (now : Time) (env : SaeEnvelope) (s : Store)
    → IsDurable s
    → IsDurable (apply_task written now env s).1
unfolding apply_task write_json_atomic
apply_task-IsDurable now env s d = ground arith
