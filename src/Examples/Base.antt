-- ===== src/Examples/Base.antt =====
-- A platform to run the model on: instants are printed as `T` and their digits, a digest is the text
-- itself, and a signature is the key and the text that was signed.
use vocation_os.Prelude.{
  ℕ, ◌+◌, ◌*◌, ◌-◌, Bool, true, false, ◌&&◌, List, [], ◌∷◌, Option, none, some, ◌===◌, ◌==◌, leb,
  ltb, if◌then◌else◌,
}
use vocation_os.Runtime.{Platform, SchemaValidation}
use vocation_os.Hash.{◌+++◌, stringify}
use vocation_os.Text.{codes, decimal}
use vocation_os.Types.{ApprovalReference, HighStakesFlags}
use vocation_os.Approval.{TrustedApprover, unsigned_approval}

-- The number that decimal digits stand for.
abbrev pub read_digits : List ℕ → ℕ → Option ℕ
read_digits [] n = some n
read_digits (c ∷ cs) n =
    let rest = read_digits cs (n * 10 + (c - 48)) in if leb 48 c && leb c 57 then rest else none

abbrev read_instant : List ℕ → Option ℕ
read_instant [] = none
read_instant (c ∷ cs) = if c == 84 then read_digits cs 0 else none

-- The order of the names by their codes.
abbrev code_le : List ℕ → List ℕ → Bool
code_le [] ys = true
code_le (x ∷ xs) [] = false
code_le (x ∷ xs) (y ∷ ys) =
    let rest = code_le xs ys in if ltb x y then true else if x == y then rest else false

abbrev pub platform : Platform
platform = record {
  parse_date = λ s. read_instant (codes s);
  to_iso_string = λ n. "T" +++ decimal n;
  utc_full_year = λ n. "2026";
  digest_hex = λ s. s;
  locale_le = λ s t. code_le (codes s) (codes t);
  verify = λ payload key signature. some (signature === (key +++ ":" +++ payload));
}

abbrev pub accept_any {ℓ} : {A : Type ℓ} → A → SchemaValidation
accept_any a = record { valid = true; errors = [] }

abbrev pub approver : TrustedApprover
approver = record { approved_by = "operator"; key_id = "K1"; public_key_pem = "PEM" }

-- An approval that the approver signed.
abbrev pub signed_approval : ApprovalReference → ApprovalReference
signed_approval a = record a { signature = "PEM:" +++ stringify platform (unsigned_approval a) }

-- Every flag assessed, and none raised.
abbrev pub no_flags : HighStakesFlags
no_flags = record {
  immigration_sensitive = some false;
  licensing_sensitive = some false;
  financial_liability_sensitive = some false;
  clinical_or_mental_health_sensitive = some false;
  research_integrity_sensitive = some false;
  conflict_of_interest_sensitive = some false;
  public_reputation_sensitive = some false;
  family_relocation_sensitive = some false;
}
