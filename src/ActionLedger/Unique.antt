-- ===== src/ActionLedger/Unique.antt =====
-- No two entries of the ledger file have one action id (action-ledger.ts).
use vocation_os.Prelude.{
  ◌≡◌, refl, Bool, false, ◌||◌, List, [], ◌∷◌, ◌++◌, some, arith, eq_iff, any, ok,
}
use vocation_os.Types.{ActionLedgerEntry}
use vocation_os.ActionLedger.{LedgerFile, has_action_id, append_ledger_entry}

-- Each entry's id differs from those behind it.
abbrev pub IsUnique : List ActionLedgerEntry → Type 0
IsUnique [] = Unit
IsUnique (e ∷ es) = (any (has_action_id e.action_id) es ≡ false) × IsUnique es

any-append {ℓ} :
    {A : Type ℓ} (q : A → Bool) (xs ys : List A) → any q (xs ++ ys) ≡ (any q xs || any q ys)
any-append q [] ys = refl
any-append q (x ∷ xs) ys = ground (arith, any-append q xs ys)

IsUnique-append :
    (es : List ActionLedgerEntry) (e : ActionLedgerEntry)
    → IsUnique es
    → any (has_action_id e.action_id) es ≡ false
    → IsUnique (es ++ e ∷ [])
IsUnique-append [] e u h = (refl, tt)
IsUnique-append (x ∷ xs) e (n, u) h = (
  rw (any-append (has_action_id x.action_id) xs (e ∷ []))
      (ground (arith, eq_iff x.action_id e.action_id, eq_iff e.action_id x.action_id)),
  IsUnique-append xs e u (ground arith),
)

-- A ledger whose entries have unique ids keeps them unique, and a successful append adds exactly the
-- given entry at the end.
pub append_ledger_entry-IsUnique :
    (schema : ActionLedgerEntry → Bool) (file after : LedgerFile) (entry : ActionLedgerEntry)
    (es : List ActionLedgerEntry)
    → file.lines ≡ some es
    → IsUnique es
    → append_ledger_entry schema file entry ≡ ok after
    → (after.lines ≡ some (es ++ entry ∷ [])) × IsUnique (es ++ entry ∷ [])
unfolding append_ledger_entry
append_ledger_entry-IsUnique schema file after entry es known u h =
    (ground arith, IsUnique-append es entry u (ground arith))
