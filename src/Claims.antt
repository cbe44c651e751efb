-- ===== src/Claims.antt =====
-- claim-graph.ts: a packet of claims and documents is held against the operator's claim graph.
mod Packet
pub mod Sound
pub mod Documents
pub mod Grounded
unfoldable pub use Packet.*
use text.Mathlib.Text.{starts_with}
use vocation_os.Prelude.{
  ℕ, suc, ◌+◌, ◌*◌, Bool, true, false, not, ◌&&◌, ◌||◌, List, [], ◌∷◌, ◌++◌, map, Option, none,
  some, String, ◌==◌, ◌===◌, if◌then◌else◌, includes, keep, Result, ok, err, ◌>>=◌, ◌>>◌, guard,
}
use vocation_os.Runtime.{Platform, before, apart, plus, is_finite}
use vocation_os.Hash.{
  Json, bool, str, arr, obj, Items, nil, cons, end, field, stringify, sha256, ◌+++◌,
}
use vocation_os.Text.{normalize_space, is_present, is_truthy}

-- An exception: a schema is not met, or a call on the file system throws.
pub data ClaimError : Type 0 where
  schema_invalid file_error : ClaimError

abbrev verdict : List String → PacketValidationResult
verdict [] = record { valid = true; reasons = [] }
verdict (r ∷ rs) = record { valid = false; reasons = r ∷ rs }

-- `if (b) reasons.push(reason)`
abbrev pub reason_if : Bool → String → List String
reason_if b reason = if b then reason ∷ [] else []

abbrev pub day : ℕ
day = 86_400_000

-- `Map` built from the pairs in order: the last claim of an id is the one that is found.
unfoldable pub claim_index : List Claim → String → Option Claim
claim_index [] id = none
claim_index (c ∷ cs) id = elim (claim_index cs id) [
  | some d ↦ some d
  | none ↦ if c.claim_id === id then some c else none
]

-- How many claims a counter of the loop counts.
abbrev count_claims : (Claim → Bool) → List Claim → ℕ
count_claims q [] = 0
count_claims q (c ∷ cs) = let rest = count_claims q cs in if q c then suc rest else rest

packet_claim_json : ApplicationPacketClaim → Json
packet_claim_json c = obj (
    field "claimId" (str c.claim_id) (
      field "text" (str c.text) (
        field "sourceClaimTextHash" (str c.source_claim_text_hash) (
          field "evidenceStatus" (str (evidence_text c.evidence_status)) (
            field "sourcePointer" (str c.source_pointer)
              (field "publiclyAssertable" (bool c.publicly_assertable) end))))))

claim_items : List ApplicationPacketClaim → Items
unfolding packet_claim_json
claim_items [] = nil
claim_items (c ∷ cs) = cons (packet_claim_json c) (claim_items cs)

document_items : List Document → Items
document_items [] = nil
document_items (d ∷ ds) =
    cons
      (obj (
        field "kind" (str d.kind)
          (field "path" (str d.path) (field "contentHash" (str d.content_hash) end))))
      (document_items ds)

-- `canonicalPacketForHash`: all fields but the hash itself.
canonical_packet : ApplicationPacket → Json
unfolding claim_items document_items
canonical_packet p = obj (
    field "opportunityId" (str p.opportunity_id) (
      field "claims" (arr (claim_items p.claims)) (
        field "documents" (arr (document_items p.documents)) (
          field "tosCompliant" (bool p.tos_compliant) (
            field "generatedAt" (str p.generated_at)
              (field "approvalRequired" (bool p.approval_required) end))))))

module _ (p : Platform) where
  unfoldable pub compute_claim_text_hash : String → String
  compute_claim_text_hash text = sha256 p (normalize_space text)

  unfoldable pub compute_packet_hash : ApplicationPacket → String
  unfolding canonical_packet
  compute_packet_hash packet = sha256 p (stringify p (canonical_packet packet))

  -- The age of a claim whose date was read; a day ahead of the clock is let pass.
  pub age_reasons : Claim → RecencyPolicyId → ℕ → Option ℕ → List String
  age_reasons c policy now none = ("verified-date-invalid:" +++ c.claim_id) ∷ []
  age_reasons c policy now (some at) =
      if before (plus (some now) day) (some at)
      then ("verified-date-in-future:" +++ c.claim_id) ∷ []
      else if apart (some now) (some at) (max_age_days policy * day)
      then ("stale-evidence:" +++ c.claim_id +++ ":" +++ policy_text policy) ∷ []
      else []

  pub dated_reasons : Claim → Option String → Option RecencyPolicyId → ℕ → List String
  dated_reasons c none policy now = ("verified-claim-missing-date:" +++ c.claim_id) ∷ []
  dated_reasons c (some date) none now =
      if is_truthy date
      then ("recency-policy-missing:" +++ c.claim_id) ∷ []
      else ("verified-claim-missing-date:" +++ c.claim_id) ∷ []
  dated_reasons c (some date) (some policy) now =
      if is_truthy date
      then age_reasons c policy now (p.parse_date (date +++ "T00:00:00.000Z"))
      else ("verified-claim-missing-date:" +++ c.claim_id) ∷ []

  unfoldable pub validate_recency : Claim → ℕ → List String
  validate_recency c now =
      if not c.recency_required
      then []
      else if not (is_verified c.evidence_status)
      then ("current-source-required:" +++ c.claim_id) ∷ []
      else dated_reasons c c.verified_date c.recency_policy_id now

  -- What one claim of the graph adds, with the ids before it.
  unfoldable pub claim_reasons : List String → Claim → ℕ → List String
  claim_reasons ids c now =
      reason_if (includes ids c.claim_id) ("duplicate-claim:" +++ c.claim_id)
      ++ (reason_if (not (c.canonical_text_hash === compute_claim_text_hash c.text))
            ("claim-canonical-hash-mismatch:" +++ c.claim_id)
          ++ (reason_if (is_verified c.evidence_status && not (is_present c.verified_date))
                ("verified-claim-missing-date:" +++ c.claim_id)
              ++ validate_recency c now))

  -- The loop of `validateClaimGraph`: its ids, reasons and three counts.
  unfoldable pub scan_claims : List Claim → List String → ℕ → List String
  scan_claims [] ids now = []
  scan_claims (c ∷ cs) ids now = claim_reasons ids c now ++ scan_claims cs (c.claim_id ∷ ids) now

  unfoldable pub validate_claim_graph :
      (schema : ClaimGraph → Bool) → ClaimGraph → ℕ → Result ClaimError PacketValidationResult
  validate_claim_graph schema g now = do
    guard (schema g) schema_invalid
    ok (
        verdict (
          scan_claims g.claims [] now
          ++ (reason_if
                (not
                  (g.verified_claims == count_claims (λ c. is_verified c.evidence_status) g.claims))
                "validation-summary-verified-count-mismatch"
              ++ (reason_if
                    (not (
                      g.unverified_claims
                      == count_claims (λ c. not (is_verified c.evidence_status)) g.claims))
                    "validation-summary-unverified-count-mismatch"
                  ++ reason_if
                      (not (
                        g.private_claims == count_claims (λ c. not c.publicly_assertable) g.claims))
                      "validation-summary-private-count-mismatch"))))

  -- What one claim of a packet adds, held against the claim of the graph with its id.
  unfoldable pub grounding_reasons : ApplicationPacketClaim → Claim → List String
  grounding_reasons pc gc =
      reason_if (not (normalize_space pc.text === normalize_space gc.text))
        ("claim-text-mismatch:" +++ pc.claim_id)
      ++ (reason_if
            (not (pc.source_claim_text_hash === gc.canonical_text_hash)
              || not (pc.source_claim_text_hash === compute_claim_text_hash gc.text))
            ("claim-text-mismatch:" +++ pc.claim_id)
          ++ (reason_if
                (not (is_verified pc.evidence_status) || not (is_verified gc.evidence_status))
                ("packet-evidence-not-verified:" +++ pc.claim_id)
              ++ (reason_if (not pc.publicly_assertable || not gc.publicly_assertable)
                    ("claim-not-publicly-assertable:" +++ pc.claim_id)
                  ++ (reason_if (not gc.allowed_in_auto_apply)
                        ("claim-not-allowed-in-auto-apply:" +++ pc.claim_id)
                      ++ reason_if (not (pc.source_pointer === gc.source_pointer))
                          ("claim-source-mismatch:" +++ pc.claim_id)))))

  unfoldable pub packet_claim_reasons :
      List Claim → List String → ApplicationPacketClaim → List String
  packet_claim_reasons graph ids pc =
      reason_if (includes ids pc.claim_id) ("duplicate-packet-claim:" +++ pc.claim_id)
      ++ elim (claim_index graph pc.claim_id) [
        | none ↦ ("missing-claim:" +++ pc.claim_id) ∷ []
        | some gc ↦ grounding_reasons pc gc
      ]

  unfoldable pub scan_packet_claims :
      List Claim → List ApplicationPacketClaim → List String → List String
  scan_packet_claims graph [] ids = []
  scan_packet_claims graph (pc ∷ pcs) ids =
      packet_claim_reasons graph ids pc ++ scan_packet_claims graph pcs (pc.claim_id ∷ ids)

module _ (fs : FileSystem) where
  unfoldable pub is_within_root : String → String → Bool
  is_within_root root candidate =
      let relative = fs.relative root candidate in
      relative === "" || (not (starts_with relative "..") && not (fs.is_absolute relative))

  -- `none` throws.
  abbrev or_throw {ℓ} : {A : Type ℓ} → Option A → Result ClaimError A
  or_throw none = err file_error
  or_throw (some a) = ok a

  unfoldable pub resolve_document : String → String → String
  resolve_document root path =
      if fs.is_absolute path then fs.resolve "" path else fs.resolve root path

  -- The checks of a document that exists below its root.
  unfoldable pub validate_real_document :
      Document → String → String → Result ClaimError (List String)
  validate_real_document d root candidate = do
    real_root ← or_throw (fs.realpath root)
    real_candidate ← or_throw (fs.realpath candidate)
    if not (is_within_root real_root real_candidate)
        then ok (("document-outside-root:" +++ d.kind) ∷ [])
        else (do
          file ← or_throw (fs.is_file real_candidate)
          if not file then ok (("document-not-file:" +++ d.kind) ∷ []) else (do
            digest ← or_throw (fs.file_digest real_candidate)
            ok (
                reason_if (not (("sha256:" +++ digest) === d.content_hash))
                  ("document-hash-mismatch:" +++ d.kind))))

  unfoldable pub validate_document : Document → Option String → Result ClaimError (List String)
  validate_document d root =
      if not (is_truthy d.path)
      then ok (("document-path-missing:" +++ d.kind) ∷ [])
      else elim root [
        | none ↦ ok (("document-root-required:" +++ d.kind) ∷ [])
        | some given ↦
            if not (is_truthy given)
            then ok (("document-root-required:" +++ d.kind) ∷ [])
            else let resolved = fs.resolve "" given in
              let candidate = resolve_document resolved d.path in
              if not (is_within_root resolved candidate)
              then ok (("document-outside-root:" +++ d.kind) ∷ [])
              else if not (fs.exists candidate)
              then ok (("document-not-found:" +++ d.kind) ∷ [])
              else validate_real_document d resolved candidate
      ]

  unfoldable pub scan_documents : List Document → Option String → Result ClaimError (List String)
  scan_documents [] root = ok []
  scan_documents (d ∷ ds) root = do
    here ← validate_document d root
    rest ← scan_documents ds root
    ok (here ++ rest)

-- What `validateApplicationPacket` collects, from the reasons of the graph to those of the documents.
unfoldable pub packet_reasons :
    Platform → ApplicationPacket → ClaimGraph → List String → List String → List String
packet_reasons p packet g graph documents =
    graph
    ++ (reason_if (not (compute_packet_hash p packet === packet.packet_hash)) "packet-hash-mismatch"
        ++ (reason_if (not packet.tos_compliant) "tos-not-compliant"
            ++ (scan_packet_claims p g.claims packet.claims [] ++ documents)))

-- `validateApplicationPacket`
unfoldable pub validate_application_packet :
    Platform
    → FileSystem
    → (packet_schema : ApplicationPacket → Bool) (graph_schema : ClaimGraph → Bool)
    → ApplicationPacket
    → ClaimGraph
    → Option String
    → ℕ
    → Result ClaimError PacketValidationResult
validate_application_packet p fs packet_schema graph_schema packet g root now = do
  guard (packet_schema packet) schema_invalid
  graph ← validate_claim_graph p graph_schema g now
  documents ← scan_documents fs packet.documents root
  ok (verdict (packet_reasons p packet g graph.reasons documents))

-- `validatePublicClaims`
validate_public_claims : ClaimGraph → PacketValidationResult
validate_public_claims g = verdict (
    map (λ c. "claim-not-publicly-assertable:" +++ c.claim_id)
      (keep (λ c. not c.publicly_assertable) g.claims))
