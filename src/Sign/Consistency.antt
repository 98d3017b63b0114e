-- ===== src/Sign/Consistency.antt =====
-- Signing requests and signed documents of services/garudasign over any sequence of calls: a
-- request is completed exactly if its document is stored, and a stored document is never replaced.
use gpass.Prelude.{
  ne_of_test, eq_of_test, Dict, lookup, insert, lookup-insert, lookup-insert_ne,
  lookup-insert_fresh, ℕ, ◌+◌, String, ◌≡◌, refl, sym, ap, ◌∙◌, ◌⊎◌, inl, inr, false, Option, none,
  some, arith, ◌==◌, Bool-cases, Option-cases,
}
use gpass.Sign.Certificates.{CertStore}
use gpass.Sign.Requests.{
  SigningRequest, SignedDocument, RequestStore, request_stamped, create_request, request_moved,
}
use gpass.Sign.Documents.{Outside, SignState, sign}
use gpass.Sign.Upload.{Upload, is_pdf_name, has_pdf_magic, pending, open_request, upload}
use gpass.Sign.Signing.{completed}
use gpass.Sign.Outcomes.{sign_cases}

-- One call. A new request's id is fresh; the certificates change in any way.
pub data SignStep (s : SignState) : SignState → Type 0 where
  uploading :
      (out : Outside) (ttl now : ℕ) (id user_id : String) (form : Option (Option Upload))
      → lookup id s.requests ≡ none
      → SignStep s (record s { requests = (upload out ttl now id user_id form s.requests).0 })
  signing :
      (out : Outside) (now : ℕ) (doc_id user_id request_id : String)
      → SignStep s (sign out now doc_id user_id request_id s).0
  certifying : (certs : CertStore) → SignStep s (record s { certs = certs })

pub data SignReach (s : SignState) : SignState → Type 0 where
  here : SignReach s s
  next : {t u : SignState} → SignReach s t → SignStep t u → SignReach s u

-- A request and its document, or neither completed nor signed.
pub data Agrees (r : Option SigningRequest) (d : Option SignedDocument) : Type 0 where
  neither :
      d ≡ none
      → ((x : SigningRequest) → r ≡ some x → (x.status == "COMPLETED") ≡ false)
      → Agrees r d
  both :
      (x : SigningRequest) (y : SignedDocument)
      → r ≡ some x
      → x.status ≡ "COMPLETED"
      → d ≡ some y
      → Agrees r d

abbrev pub IsConsistent : SignState → Type 0
IsConsistent s = (id : String) → Agrees (lookup id s.requests) (lookup id s.documents.docs)

upload_cases :
    (out : Outside) (ttl now : ℕ) (id user_id : String) (form : Option (Option Upload))
    (s : RequestStore)
    → ((upload out ttl now id user_id form s).0 ≡ s)
      ⊎ ((r : SigningRequest) × ((upload out ttl now id user_id form s).0 ≡ insert id r s)
          × (r.status ≡ "PENDING"))
unfolding upload open_request create_request
upload_cases out ttl now id user_id none s = elim (Bool-cases (user_id == "")) [
  | inl e ↦ inl (rw e refl)
  | inr e ↦ inl (rw e refl)
]
upload_cases out ttl now id user_id (some none) s = elim (Bool-cases (user_id == "")) [
  | inl e ↦ inl (rw e refl)
  | inr e ↦ inl (rw e refl)
]
upload_cases out ttl now id user_id (some (some f)) s = elim (Bool-cases (user_id == "")) [
  | inl e ↦ inl (rw e refl)
  | inr e ↦ elim (Bool-cases (is_pdf_name f.filename)) [
    | inr n ↦ inl (rw e (rw n refl))
    | inl n ↦ elim (Bool-cases (has_pdf_magic f.content)) [
      | inr m ↦ inl (rw e (rw n (rw m refl)))
      | inl m ↦ elim (Option-cases (out.compute_hash f.content)) [
        | inl h ↦ inl (rw e (rw n (rw m (rw (h, open_request) refl))))
        | inr (hash, h) ↦ elim (Option-cases (out.save f.filename f.content)) [
          | inl p ↦ inl (rw e (rw n (rw m (rw (h, open_request) (rw p refl)))))
          | inr (path, p) ↦ inr (
            request_stamped now id (pending user_id f hash path (now + ttl)),
            rw e (rw n (rw m (rw (h, open_request) (rw p refl)))),
            refl,
          )
        ]
      ]
    ]
  ]
]

-- Where the request is missing or not completed, no document is stored.
pub unsigned_of_open :
    {r : Option SigningRequest} {d : Option SignedDocument}
    → Agrees r d
    → ((x : SigningRequest) → r ≡ some x → (x.status == "COMPLETED") ≡ false)
    → d ≡ none
unsigned_of_open (neither p _) is_open = p
unsigned_of_open (both x y p q _) is_open = absurd (ne_of_test x.status "COMPLETED" (is_open x p) q)

module _ (id : String) where
  -- A request that is not completed may join, or replace, an unsigned one.
  insert-Agrees :
      (k : String) (r : SigningRequest) (requests : RequestStore) (docs : Dict SignedDocument)
      → (r.status == "COMPLETED") ≡ false
      → lookup k docs ≡ none
      → Agrees (lookup id requests) (lookup id docs)
      → Agrees (lookup id (insert k r requests)) (lookup id docs)
  insert-Agrees k r requests docs unfinished unsigned at_id = elim (Bool-cases (k == id)) [
    | inl e ↦
        let same : k ≡ id = eq_of_test k id e in
        neither (ap (λ j. lookup j docs) (sym same) ∙ unsigned)
          (λ x p. ground (arith, p, lookup-insert k id r requests, e, unfinished))
    | inr e ↦ rw (lookup-insert_ne k id r requests e) at_id
  ]

  -- A completed request and its document are stored together.
  insert_both-Agrees :
      (k : String) (r : SigningRequest) (d : SignedDocument) (requests : RequestStore)
      (docs : Dict SignedDocument)
      → r.status ≡ "COMPLETED"
      → Agrees (lookup id requests) (lookup id docs)
      → Agrees (lookup id (insert k r requests)) (lookup id (insert k d docs))
  insert_both-Agrees k r d requests docs finished at_id = elim (Bool-cases (k == id)) [
    | inl e ↦
        both r d (ground (arith, lookup-insert k id r requests, e)) finished
          (ground (arith, lookup-insert k id d docs, e))
    | inr e ↦ rw (lookup-insert_ne k id r requests e, lookup-insert_ne k id d docs e) at_id
  ]

SignStep-IsConsistent : {s t : SignState} → SignStep s t → IsConsistent s → IsConsistent t
SignStep-IsConsistent {s} (uploading out ttl now k user_id form fresh) h id =
    elim (upload_cases out ttl now k user_id form s.requests) [
      | inl e ↦ rw e (h id)
      | inr (r, e, is_pending) ↦ rw e (
          insert-Agrees id k r s.requests s.documents.docs (rw is_pending refl)
            (unsigned_of_open (h k) (λ x p. ground (arith, p, fresh))) (h id))
    ]
SignStep-IsConsistent {s} (signing out now doc_id user_id k) h id =
    elim (sign_cases out now doc_id user_id k s) [
      | inl r ↦ rw r.0 (h id)
      | inr (inl f) ↦ rw f.after (
          insert-Agrees id k (request_moved now "FAILED" "" f.message f.request) s.requests
            s.documents.docs refl
            (unsigned_of_open (h k) (λ x p. ground (arith, p, f.guards.held, f.guards.is_open)))
            (h id))
      | inr (inr g) ↦
          rw (g.requests, g.documents)
            (insert_both-Agrees id k (completed now g.cert.id g.request) g.document s.requests
              s.documents.docs refl (h id))
    ]
SignStep-IsConsistent (certifying certs) h id = h id

-- From a consistent state on, whatever is called, with fresh ids for new requests: a request has the status COMPLETED exactly if a
-- signed document is stored for it. So a completed request's document is always found, and no
-- document exists for a request that is pending or failed.
pub SignReach-IsConsistent : {s t : SignState} → IsConsistent s → SignReach s t → IsConsistent t
SignReach-IsConsistent h here = h
SignReach-IsConsistent h (next r st) = SignStep-IsConsistent st (SignReach-IsConsistent h r)

SignStep-document :
    (id : String) {s t : SignState} (d : SignedDocument)
    → SignStep s t
    → lookup id s.documents.docs ≡ some d
    → lookup id t.documents.docs ≡ some d
SignStep-document id d (uploading out ttl now k user_id form fresh) e = e
SignStep-document id {s} d (signing out now doc_id user_id k) e =
    elim (sign_cases out now doc_id user_id k s) [
      | inl r ↦ rw r.0 e
      | inr (inl f) ↦ rw f.after e
      | inr (inr g) ↦
          rw g.documents (lookup-insert_fresh k id g.document d s.documents.docs g.unsigned e)
    ]
SignStep-document id d (certifying certs) e = e

-- A stored document stays as it is for ever: a request is never signed a second time.
pub SignReach-document :
    (id : String) {s t : SignState} (d : SignedDocument)
    → SignReach s t
    → lookup id s.documents.docs ≡ some d
    → lookup id t.documents.docs ≡ some d
SignReach-document id d here e = e
SignReach-document id d (next r st) e = SignStep-document id d st (SignReach-document id d r e)
