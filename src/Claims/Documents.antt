-- ===== src/Claims/Documents.antt =====
-- The documents of a packet that validateDocument (claim-graph.ts) accepts.
use vocation_os.Prelude.{
  ◌≡◌, refl, true, List, [], ◌∷◌, Option, none, some, String, arith, eq_iff, All, ok, Option-cases,
  inl, inr, append-eq-nil, >>=-ok_parts,
}
use vocation_os.Hash.{◌+++◌}
use vocation_os.Claims.{
  Document, FileSystem, is_within_root, resolve_document, validate_real_document, validate_document,
  scan_documents,
}

-- The document is a file below the given root, also when links are followed, and has its digest.
pub record IsIntact (fs : FileSystem) (d : Document) (root : String) : Type 0 where
  pub real_root : String
  pub real_path : String
  pub digest : String
  pub within :
      is_within_root fs (fs.resolve "" root) (resolve_document fs (fs.resolve "" root) d.path)
      ≡ true
  pub root_read : fs.realpath (fs.resolve "" root) ≡ some real_root
  pub path_read : fs.realpath (resolve_document fs (fs.resolve "" root) d.path) ≡ some real_path
  pub really_within : is_within_root fs real_root real_path ≡ true
  pub file : fs.is_file real_path ≡ some true
  pub digest_read : fs.file_digest real_path ≡ some digest
  pub same : "sha256:" +++ digest ≡ d.content_hash

real-IsIntact :
    (fs : FileSystem) (d : Document) (root candidate : String)
    → validate_real_document fs d root candidate ≡ ok []
    → (real_root : String) × (real_path : String) × (digest : String) × (fs.realpath root
        ≡ some real_root)
      × (fs.realpath candidate ≡ some real_path)
      × (is_within_root fs real_root real_path ≡ true)
      × (fs.is_file real_path ≡ some true)
      × (fs.file_digest real_path ≡ some digest)
      × ("sha256:" +++ digest ≡ d.content_hash)
unfolding validate_real_document
real-IsIntact fs d root candidate h = elim (Option-cases (fs.realpath root)) [
  | inl bad ↦ absurd (ground arith)
  | inr (r, er) ↦ elim (Option-cases (fs.realpath candidate)) [
    | inl bad ↦ absurd (ground arith)
    | inr (c, ec) ↦ elim (Option-cases (fs.file_digest c)) [
      | inl bad ↦ absurd (ground arith)
      | inr (g, eg) ↦ (
        r,
        c,
        g,
        er,
        ec,
        ground arith,
        ground arith,
        eg,
        ground (arith, eq_iff ("sha256:" +++ g) d.content_hash),
      )
    ]
  ]
]

document-IsIntact :
    (fs : FileSystem) (d : Document) (root : Option String)
    → validate_document fs d root ≡ ok []
    → (given : String) × (root ≡ some given) × IsIntact fs d given
unfolding validate_document
document-IsIntact fs d none h = absurd (ground arith)
document-IsIntact fs d (some given) h =
    let candidate = resolve_document fs (fs.resolve "" given) d.path in
    let passed : validate_real_document fs d (fs.resolve "" given) candidate ≡ ok [] =
      ground arith in
    let (r, c, g, er, ec, w, f, eg, same) =
      real-IsIntact fs d (fs.resolve "" given) candidate passed in
    (
      given,
      refl,
      record {
        real_root = r;
        real_path = c;
        digest = g;
        within = ground arith;
        root_read = er;
        path_read = ec;
        really_within = w;
        file = f;
        digest_read = eg;
        same = same;
      },
    )

pub documents-AreIntact :
    (fs : FileSystem) (ds : List Document) (root : Option String)
    → scan_documents fs ds root ≡ ok []
    → All (λ d. (given : String) × (root ≡ some given) × IsIntact fs d given) ds
unfolding scan_documents
documents-AreIntact fs [] root h = tt
documents-AreIntact fs (d ∷ ds) root h =
    let (here, (first, h1)) = >>=-ok_parts (validate_document fs d root) _ h in
    let (rest, (others, h2)) = >>=-ok_parts (scan_documents fs ds root) _ h1 in
    let (e1, e2) = append-eq-nil here rest (ground arith) in
    (document-IsIntact fs d root (rw e1 at first), documents-AreIntact fs ds root (rw e2 at others))
