-- ===== src/AutoApply/Record.antt =====
-- How decideAutoApply (auto-apply.ts) leaves its mark in the ledger.
use vocation_os.Prelude.{
  ℕ, ◌≡◌, refl, ap, Bool, false, List, [], ◌∷◌, ◌++◌, some, String, arith, keep, ok, err,
  Result-cases, inl, inr, ◌⊎◌,
}
use vocation_os.Types.{ActionLedgerEntry}
use vocation_os.Runtime.{Platform}
use vocation_os.ActionLedger.{LedgerFile, LedgerError, append_ledger_entry}
use vocation_os.ActionLedger.Unique.{IsUnique, append_ledger_entry-IsUnique}
use vocation_os.AutoApply.{
  AutoApplyInput, AutoApplyDecision, World, counts_on, usage_on, decision_entry, judge,
  record_decision, decide_auto_apply, unrecorded,
}

-- An entry of a decision never counts as an application that was sent.
decision_entry-counts_on :
    (p : Platform) (i : AutoApplyInput) (d : AutoApplyDecision) (day : String)
    → counts_on day (decision_entry p i d) ≡ false
unfolding counts_on decision_entry
decision_entry-counts_on p i d day = ground arith

keep-append_dropped {ℓ} :
    {A : Type ℓ} (q : A → Bool) (xs : List A) (x : A)
    → q x ≡ false
    → keep q (xs ++ x ∷ []) ≡ keep q xs
keep-append_dropped q [] x h = rw h
keep-append_dropped q (y ∷ ys) x h = rw (keep-append_dropped q ys x h)

usage-decision_entry :
    (p : Platform) (now : ℕ) (es : List ActionLedgerEntry) (i : AutoApplyInput)
    (d : AutoApplyDecision)
    → usage_on p now (es ++ decision_entry p i d ∷ []) ≡ usage_on p now es
unfolding usage_on
usage-decision_entry p now es i d =
    rw (keep-append_dropped _ es (decision_entry p i d) (decision_entry-counts_on p i d _))

-- What became of a decision: it was recorded, or it was withdrawn and the ledger is as it was.
pub record IsRecorded (w : World) (i : AutoApplyInput) (file after : LedgerFile)
    (es : List ActionLedgerEntry) (d : AutoApplyDecision) : Type 0 where
  pub same : d ≡ judge w i
  pub appended : after.lines ≡ some (es ++ decision_entry w.platform i d ∷ [])
  pub unique : IsUnique (es ++ decision_entry w.platform i d ∷ [])
  pub usage :
      (now : ℕ)
      → usage_on w.platform now (es ++ decision_entry w.platform i d ∷ [])
        ≡ usage_on w.platform now es

pub record IsWithdrawn (file after : LedgerFile) (d : AutoApplyDecision) : Type 0 where
  pub refused : d.allowed ≡ false
  pub code : d.blocked_by ≡ some "ledger-write-failed"
  pub unchanged : after ≡ file

module _ (w : World) (i : AutoApplyInput) (d : AutoApplyDecision) (file : LedgerFile)
    (given : i.ledger ≡ some file) where
  record_written :
      (after : LedgerFile)
      → append_ledger_entry w.entry_schema file (decision_entry w.platform i d) ≡ ok after
      → record_decision w i d ≡ (d, some after)
  unfolding record_decision
  record_written after h = ground arith

  record_failed :
      (e : LedgerError)
      → append_ledger_entry w.entry_schema file (decision_entry w.platform i d) ≡ err e
      → record_decision w i d ≡ (unrecorded d e, some file)
  unfolding record_decision
  record_failed e h = ground arith

-- With a ledger of unique entries, a decision either stands and is recorded as one new entry at the
-- end, whose id is new and which leaves the usage of every day as it was, or it is refused because it
-- could not be recorded, and the ledger is unchanged.
pub decide_auto_apply-IsRecorded :
    (w : World) (i : AutoApplyInput) (file : LedgerFile) (es : List ActionLedgerEntry)
    → i.ledger ≡ some file
    → file.lines ≡ some es
    → IsUnique es
    → (after : LedgerFile) × ((decide_auto_apply w i).1 ≡ some after)
      × (IsRecorded w i file after es (decide_auto_apply w i).0
          ⊎ IsWithdrawn file after (decide_auto_apply w i).0)
unfolding decide_auto_apply
decide_auto_apply-IsRecorded w i file es given known u =
    let d = judge w i in
    elim (Result-cases (append_ledger_entry w.entry_schema file (decision_entry w.platform i d))) [
      | inl (after, written) ↦
          let stands : record_decision w i d ≡ (d, some after) =
            record_written w i d file given after written in
          let (appended, unique) =
            append_ledger_entry-IsUnique w.entry_schema file after (decision_entry w.platform i d)
              es known u written in
          let kept : (record_decision w i d).0 ≡ d = ap (λ r. r.0) stands in
          (
            after,
            ap (λ r. r.1) stands,
            inl (record {
              same = kept;
              appended = rw kept appended;
              unique = rw kept unique;
              usage = λ now. usage-decision_entry w.platform now es i (record_decision w i d).0;
            }),
          )
      | inr (e, failed) ↦
          let withdrawn : record_decision w i d ≡ (unrecorded d e, some file) =
            record_failed w i d file given e failed in
          let kept : (record_decision w i d).0 ≡ unrecorded d e = ap (λ r. r.0) withdrawn in
          (
            file,
            ap (λ r. r.1) withdrawn,
            inr (record { refused = rw kept refl; code = rw kept refl; unchanged = refl }),
          )
    ]
