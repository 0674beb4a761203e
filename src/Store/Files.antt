-- ===== src/Store/Files.antt =====
-- internal/p2p/store.go: `readJSON` and `writeJSONAtomic`. A file of JSON is modelled by the value
-- whose text json.MarshalIndent wrote; what json.Unmarshal reads from that text need not be the same
-- value, and is an argument, as are the system's answers to the calls.
use openclaw_p2p.Prelude.{Option, none, some}
use openclaw_p2p.Error.{Error, Result, ok, err, Check, nil}

pub data FileContent (V : Type 0) : Type 0 where
  absent : FileContent V
  empty : FileContent V
  -- text that is no JSON of the expected form, with what json.Unmarshal says of it
  corrupt : Error → FileContent V
  -- the text that json.MarshalIndent writes of the value
  holds : V → FileContent V

-- A file and the `.tmp` file beside it.
pub record JsonFile (V : Type 0) : Type 0 where
  pub target : FileContent V
  pub tmp : FileContent V

-- How the calls of one `writeJSONAtomic` end: all succeed, or one fails and ends it.
pub data WriteOutcome : Type 0 where
  written : WriteOutcome
  marshal_failed write_failed rename_failed : Error → WriteOutcome

-- The result is read into a map that is still empty, so that its entries are those of the file.
-- `decoded` is what json.Unmarshal reads from the text of a value.
unfoldable pub read_json : {V : Type 0} → (V → V) → Option Error → FileContent V → V → Result V
read_json decoded (some e) file target = err e
read_json decoded none absent target = ok target
read_json decoded none empty target = ok target
read_json decoded none (corrupt e) target = err e
read_json decoded none (holds v) target = ok (decoded v)

-- A failed os.WriteFile may leave a part of the text in the `.tmp` file.
unfoldable pub write_json_atomic : {V : Type 0} → WriteOutcome → V → JsonFile V → Check × JsonFile V
write_json_atomic written v file = (nil, record { target = holds v; tmp = absent })
write_json_atomic (marshal_failed e) v file = (err e, file)
write_json_atomic (write_failed e) v file = (err e, record file { tmp = corrupt e })
write_json_atomic (rename_failed e) v file = (err e, record file { tmp = holds v })
