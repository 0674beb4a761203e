-- ===== src/Store/Open.antt =====
-- internal/p2p/store.go: `OpenStore` and `load`.
pub mod Recovery
use openclaw_p2p.GoMap.{GoMap}
use openclaw_p2p.Sae.Libs.{Bytes}
use openclaw_p2p.Prelude.{[], ◌∷◌, Option, none, some}
use openclaw_p2p.Error.{Error, Result, ok, err, ◌>>=◌, ◌>>◌, Check, nil, wrap}
use openclaw_p2p.Store.Files.{read_json}
use openclaw_p2p.Store.State.{StoredPayload, Store}

-- What the system answers: os.MkdirAll, and the five os.ReadFile calls (a missing file is no fault).
-- A json.RawMessage keeps the bytes of its text, which json.MarshalIndent has laid out anew in the
-- file; `indented` is what becomes of them there.
pub record OpenInputs : Type 0 where
  pub mkdir : Check
  pub tasks : Option Error
  pub facts : Option Error
  pub payloads : Option Error
  pub peers : Option Error
  pub negotiations : Option Error
  pub indented : Bytes → Bytes

-- The payloads as they are read from the text of their file: the field Data is raw JSON.
unfoldable pub reread_payloads : (Bytes → Bytes) → GoMap StoredPayload → GoMap StoredPayload
reread_payloads indented [] = []
reread_payloads indented ((k, payload) ∷ rest) =
    (k, record payload { content = indented payload.content }) ∷ reread_payloads indented rest

-- The other maps hold no raw JSON, and are read as they were written.
abbrev pub same_value : {V : Type 0} → V → V
same_value v = v

-- `load` on a store with empty maps over the files that `disk` has
unfoldable pub load : OpenInputs → Store → Result Store
unfolding read_json reread_payloads
load i s = do
  tasks ← read_json same_value i.tasks s.tasks_json.target s.tasks
  facts ← read_json same_value i.facts s.facts_json.target s.facts
  payloads ← read_json (reread_payloads i.indented) i.payloads s.payloads_json.target s.payloads
  peers ← read_json same_value i.peers s.peers_json.target s.peers
  negotiations ← read_json same_value i.negotiations s.negotiations_json.target s.negotiations
  ok (record s {
    tasks = tasks;
    facts = facts;
    payloads = payloads;
    peers = peers;
    negotiations = negotiations;
  })

-- A new process over the files of an earlier one: nothing of its memory is left.
abbrev pub fresh_memory : Store → Store
fresh_memory disk = record disk {
  tasks = [];
  facts = [];
  payloads = [];
  peers = [];
  negotiations = [];
  rates = [];
}

unfoldable pub open_store : OpenInputs → Store → Result Store
unfolding load
open_store i disk = do wrap "create store root" i.mkdir; load i (fresh_memory disk)
