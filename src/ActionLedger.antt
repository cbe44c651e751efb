-- ===== src/ActionLedger.antt =====
-- action-ledger.ts: the file of ledger entries, one to a line.
pub mod Unique
use vocation_os.Prelude.{
  Bool, true, false, List, [], ◌∷◌, ◌++◌, Option, none, some, String, ◌===◌, any, Result, ok, err,
  ◌>>=◌, ◌>>◌, guard, throw_if,
}
use vocation_os.Types.{ActionLedgerEntry}

-- The file behind a ledger path: its entries, `none` where a line is not JSON (a file that is not
-- there has no entries), whether its directory is there or can be made, and whether the file can be
-- written to.
pub record LedgerFile : Type 0 where
  pub lines : Option (List ActionLedgerEntry)
  pub has_directory : Bool
  pub writable : Bool

pub data LedgerError : Type 0 where
  schema_invalid unreadable unwritable : LedgerError
  duplicate_action_id : String → LedgerError

unfoldable pub read_ledger : LedgerFile → Result LedgerError (List ActionLedgerEntry)
read_ledger file = elim file.lines [ none ↦ err unreadable | some es ↦ ok es ]

abbrev pub has_action_id : String → ActionLedgerEntry → Bool
has_action_id id e = e.action_id === id

-- `mkdirSync` fails first, and `appendFileSync` last.
unfoldable pub append_ledger_entry :
    (schema : ActionLedgerEntry → Bool)
    → LedgerFile
    → ActionLedgerEntry
    → Result LedgerError LedgerFile
unfolding read_ledger
append_ledger_entry schema file entry = do
  guard (schema entry) schema_invalid
  guard file.has_directory unwritable
  es ← read_ledger file
  throw_if (any (has_action_id entry.action_id) es) (duplicate_action_id entry.action_id)
  guard file.writable unwritable
  ok (record file { lines = some (es ++ entry ∷ []) })
