-- ===== src/Claims/Grounded.antt =====
-- What a packet that passes validateApplicationPacket (claim-graph.ts) has been checked for.
use mathlib.Core.List.{Memᴰ}
use vocation_os.Prelude.{
  ℕ, ◌≡◌, ◌↔◌, Bool, true, List, [], ◌∷◌, ◌++◌, Option, some, String, arith, eq_iff, ◌===◌,
  mem→includes, All, ok, Option-cases, Bool-cases, inl, inr, append-eq-nil, Result-cases,
}
use vocation_os.Runtime.{Platform}
use vocation_os.Text.{normalize_space}
use vocation_os.Claims.{
  verified, Claim, ClaimGraph, ApplicationPacketClaim, ApplicationPacket, PacketValidationResult,
  FileSystem, claim_index, compute_claim_text_hash, compute_packet_hash, scan_claims,
  validate_claim_graph, grounding_reasons, packet_claim_reasons, scan_packet_claims, packet_reasons,
  scan_documents, validate_application_packet,
}
use vocation_os.Claims.Sound.{is_verified_iff, IsSound, scan-IsSound}
use vocation_os.Claims.Documents.{IsIntact, documents-AreIntact}

-- The packet says of the claim what the graph says, and the graph lets it be used.
pub record IsGrounded (p : Platform) (pc : ApplicationPacketClaim) (gc : Claim) : Type 0 where
  pub text : normalize_space pc.text ≡ normalize_space gc.text
  pub canonical : pc.source_claim_text_hash ≡ gc.canonical_text_hash
  pub digest : pc.source_claim_text_hash ≡ compute_claim_text_hash p gc.text
  pub verified_here : pc.evidence_status ≡ verified
  pub verified_there : gc.evidence_status ≡ verified
  pub public_here : pc.publicly_assertable ≡ true
  pub public_there : gc.publicly_assertable ≡ true
  pub allowed : gc.allowed_in_auto_apply ≡ true
  pub source : pc.source_pointer ≡ gc.source_pointer

grounding_iff :
    (p : Platform) (pc : ApplicationPacketClaim) (gc : Claim)
    → (grounding_reasons p pc gc ≡ []) ↔ IsGrounded p pc gc
unfolding grounding_reasons
grounding_iff p pc gc = (
  λ h. record {
    text = ground (arith, eq_iff (normalize_space pc.text) (normalize_space gc.text));
    canonical = ground (arith, eq_iff pc.source_claim_text_hash gc.canonical_text_hash);
    digest = ground (arith, eq_iff pc.source_claim_text_hash (compute_claim_text_hash p gc.text));
    verified_here = ground (arith, is_verified_iff pc.evidence_status);
    verified_there = ground (arith, is_verified_iff gc.evidence_status);
    public_here = ground arith;
    public_there = ground arith;
    allowed = ground arith;
    source = ground (arith, eq_iff pc.source_pointer gc.source_pointer);
  },
  λ g. ground (
    arith,
    eq_iff (normalize_space pc.text) (normalize_space gc.text),
    eq_iff pc.source_claim_text_hash gc.canonical_text_hash,
    eq_iff pc.source_claim_text_hash (compute_claim_text_hash p gc.text),
    is_verified_iff pc.evidence_status,
    is_verified_iff gc.evidence_status,
    eq_iff pc.source_pointer gc.source_pointer,
  ),
)

-- A claim of the packet stands on a claim of the graph, and on no id that came before it.
pub record IsBacked (p : Platform) (graph : List Claim) (ids : List String)
    (pc : ApplicationPacketClaim) : Type 0 where
  pub backing : Claim
  pub listed : Memᴰ backing graph
  pub same_id : backing.claim_id ≡ pc.claim_id
  pub grounded : IsGrounded p pc backing
  pub once : ¬ Memᴰ pc.claim_id ids

-- Every claim of the packet is backed, and no two have one id.
abbrev pub AllBacked : Platform → List Claim → List String → List ApplicationPacketClaim → Type 0
AllBacked p graph ids [] = Unit
AllBacked p graph ids (pc ∷ pcs) =
    IsBacked p graph ids pc × AllBacked p graph (pc.claim_id ∷ ids) pcs

claim_index-mem :
    (cs : List Claim) (id : String) (c : Claim)
    → claim_index cs id ≡ some c
    → Memᴰ c cs × (c.claim_id ≡ id)
unfolding claim_index
claim_index-mem [] id c h = cc
claim_index-mem (d ∷ ds) id c h = elim (Option-cases (claim_index ds id)) [
  | inr (e, found) ↦
      let (m, same) = claim_index-mem ds id e found in
      let is : e ≡ c = ground arith in (Memᴰ.tail (rw (← is) m), rw (← is) same)
  | inl missing ↦ elim (Bool-cases (d.claim_id === id)) [
    | inl same ↦
        let is : c ≡ d = ground arith in (Memᴰ.head is, rw is ((eq_iff d.claim_id id).0 same))
    | inr other ↦ absurd (ground arith)
  ]
]

packet_claim-IsBacked :
    (p : Platform) (graph : List Claim) (ids : List String) (pc : ApplicationPacketClaim)
    → packet_claim_reasons p graph ids pc ≡ []
    → IsBacked p graph ids pc
unfolding packet_claim_reasons
packet_claim-IsBacked p graph ids pc h = elim (Option-cases (claim_index graph pc.claim_id)) [
  | inl missing ↦ absurd (ground arith)
  | inr (gc, found) ↦
      let (m, same) = claim_index-mem graph pc.claim_id gc found in
      let fine : grounding_reasons p pc gc ≡ [] = ground arith in
      record {
        backing = gc;
        listed = m;
        same_id = same;
        grounded = (grounding_iff p pc gc).0 fine;
        once = λ k. ground (arith, mem→includes k);
      }
]

packet_claims-AllBacked :
    (p : Platform) (graph : List Claim) (pcs : List ApplicationPacketClaim) (ids : List String)
    → scan_packet_claims p graph pcs ids ≡ []
    → AllBacked p graph ids pcs
unfolding scan_packet_claims
packet_claims-AllBacked p graph [] ids h = tt
packet_claims-AllBacked p graph (pc ∷ pcs) ids h =
    let (here, rest) =
      append-eq-nil (packet_claim_reasons p graph ids pc)
        (scan_packet_claims p graph pcs (pc.claim_id ∷ ids)) h in
    (
      packet_claim-IsBacked p graph ids pc here,
      packet_claims-AllBacked p graph pcs (pc.claim_id ∷ ids) rest,
    )

-- What an accepted packet has been checked for.
pub record IsAcceptable (p : Platform) (fs : FileSystem) (packet : ApplicationPacket)
    (g : ClaimGraph) (root : Option String) (now : ℕ) : Type 0 where
  pub hash : compute_packet_hash p packet ≡ packet.packet_hash
  pub terms : packet.tos_compliant ≡ true
  pub graph : All (IsSound p now) g.claims
  pub claims : AllBacked p g.claims [] packet.claims
  pub documents :
      All (λ d. (given : String) × (root ≡ some given) × IsIntact fs d given) packet.documents

graph-checks :
    (p : Platform) (schema : ClaimGraph → Bool) (g : ClaimGraph) (now : ℕ)
    (r : PacketValidationResult)
    → validate_claim_graph p schema g now ≡ ok r
    → r.reasons ≡ []
    → scan_claims p g.claims [] now ≡ []
unfolding validate_claim_graph
graph-checks p schema g now r h e = elim (Bool-cases (schema g)) [
  | inr bad ↦ absurd (ground arith)
  | inl good ↦ ground arith
]

packet-checks :
    (p : Platform) (fs : FileSystem) (packet_schema : ApplicationPacket → Bool)
    (graph_schema : ClaimGraph → Bool) (packet : ApplicationPacket) (g : ClaimGraph)
    (root : Option String) (now : ℕ) (r : PacketValidationResult)
    → validate_application_packet p fs packet_schema graph_schema packet g root now ≡ ok r
    → r.valid ≡ true
    → (gr : PacketValidationResult) × (docs : List String) × (validate_claim_graph p graph_schema g
          now
        ≡ ok gr)
      × (scan_documents fs packet.documents root ≡ ok docs)
      × (packet_reasons p packet g gr.reasons docs ≡ [])
unfolding validate_application_packet
packet-checks p fs packet_schema graph_schema packet g root now r h good =
    elim (Result-cases (validate_claim_graph p graph_schema g now)) [
      | inr (e, bad) ↦ absurd (ground arith)
      | inl (gr, eg) ↦ elim (Result-cases (scan_documents fs packet.documents root)) [
        | inr (e, bad) ↦ absurd (ground arith)
        | inl (docs, ed) ↦ (gr, docs, eg, ed, ground arith)
      ]
    ]

reasons-parts :
    (p : Platform) (packet : ApplicationPacket) (g : ClaimGraph) (graph docs : List String)
    → packet_reasons p packet g graph docs ≡ []
    → (graph ≡ [])
      × (compute_packet_hash p packet ≡ packet.packet_hash)
      × (packet.tos_compliant ≡ true)
      × (scan_packet_claims p g.claims packet.claims [] ≡ [])
      × (docs ≡ [])
unfolding packet_reasons
reasons-parts p packet g graph docs h =
    let claims = scan_packet_claims p g.claims packet.claims [] in
    let (e, h1) : (graph ≡ []) × _ = append-eq-nil graph _ h in
    let both : claims ++ docs ≡ [] = ground arith in
    let (ec, ed) = append-eq-nil claims docs both in
    (
      e,
      ground (arith, eq_iff (compute_packet_hash p packet) packet.packet_hash),
      ground arith,
      ec,
      ed,
    )

-- A packet is accepted only if its hash is that of its content, its terms are met, every claim of the
-- graph is sound and fresh where it must be, every claim of the packet stands, once, on a claim of
-- the graph with the same id, text and source that is verified, public and allowed on both sides,
-- and every document is a file of its digest below the given root.
pub validate_application_packet-IsAcceptable :
    (p : Platform) (fs : FileSystem) (packet_schema : ApplicationPacket → Bool)
    (graph_schema : ClaimGraph → Bool) (packet : ApplicationPacket) (g : ClaimGraph)
    (root : Option String) (now : ℕ) (r : PacketValidationResult)
    → validate_application_packet p fs packet_schema graph_schema packet g root now ≡ ok r
    → r.valid ≡ true
    → IsAcceptable p fs packet g root now
validate_application_packet-IsAcceptable p fs packet_schema graph_schema packet g root now r h
      good =
    let (gr, docs, eg, ed, none_left) =
      packet-checks p fs packet_schema graph_schema packet g root now r h good in
    let (no_graph, hash, terms, claims, no_docs) =
      reasons-parts p packet g gr.reasons docs none_left in
    record {
      hash = hash;
      terms = terms;
      graph = scan-IsSound p g.claims [] now (graph-checks p graph_schema g now gr eg no_graph);
      claims = packet_claims-AllBacked p g.claims packet.claims [] claims;
      documents = documents-AreIntact fs packet.documents root (rw no_docs at ed);
    }
