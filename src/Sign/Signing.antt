-- ===== src/Sign/Signing.antt =====
-- What one call of `Sign` (services/garudasign/handler/document.go) does, on every path.
use gpass.Prelude.{
  lookup, insert, ℕ, ◌≤◌, String, ◌≡◌, sym, ap, ◌∙◌, inl, inr, false, none, some, arith, ◌==◌,
  eq_iff, Option-cases, ok, Result-cases, >>=-eq-ok, reply,
}
use gpass.Sign.Certificates.{Certificate, get_active_by_user}
use gpass.Sign.Requests.{SigningRequest, RequestStore, get_request, SignedDocument, request_moved}
use gpass.Sign.Documents.{SignState, owned_request, ready, SignResponse, Outside, guarded, packed}
use gpass.Sign.Issue.{Outcome}

-- The guards of `Sign` have passed.
pub record IsReady (now : ℕ) (user_id request_id : String) (s : SignState) (r : SigningRequest)
    (c : Certificate) : Type 0 where
  pub held : lookup request_id s.requests ≡ some r
  pub own : r.user_id ≡ user_id
  pub in_time : now ≤ r.expires_at
  pub is_open : (r.status == "COMPLETED") ≡ false
  pub certificate : get_active_by_user user_id s.certs ≡ ok c

owned_request-eq-ok :
    (user_id request_id : String) (s : RequestStore) (r : SigningRequest)
    → owned_request user_id request_id s ≡ ok r
    → (lookup request_id s ≡ some r) × (r.user_id ≡ user_id)
unfolding owned_request get_request
owned_request-eq-ok user_id request_id s r h = elim (Option-cases (lookup request_id s)) [
  | inl e ↦ absurd (ground (arith, e, h))
  | inr (x, e) ↦ (ground (arith, e, h), ground (arith, e, h, eq_iff x.user_id user_id))
]

guarded-eq-ok :
    (now : ℕ) (user_id : String) (s : SignState) (x r : SigningRequest) (c : Certificate)
    → guarded now user_id s x ≡ ok (r, c)
    → (x ≡ r)
      × (now ≤ x.expires_at)
      × ((x.status == "COMPLETED") ≡ false)
      × (get_active_by_user user_id s.certs ≡ ok c)
unfolding guarded
guarded-eq-ok now user_id s x r c h = elim (Result-cases (get_active_by_user user_id s.certs)) [
  | inl (c', g) ↦
      (ground (arith, g, h), ground (arith, g, h), ground (arith, g, h), ground (arith, g, h))
  | inr (e, g) ↦ absurd (ground (arith, g, h))
]

pub ready-eq-ok :
    (now : ℕ) (user_id request_id : String) (s : SignState) (r : SigningRequest) (c : Certificate)
    → ready now user_id request_id s ≡ ok (r, c)
    → IsReady now user_id request_id s r c
unfolding ready
ready-eq-ok now user_id request_id s r c h =
    let (x, e, g) =
      >>=-eq-ok (owned_request user_id request_id s.requests) (guarded now user_id s) h in
    let (held, own) = owned_request-eq-ok user_id request_id s.requests x e in
    let (same, in_time, is_open, certificate) = guarded-eq-ok now user_id s x r c g in
    record {
      held = held ∙ ap some same;
      own = ap (λ (y : SigningRequest). y.user_id) (sym same) ∙ own;
      in_time = rw (← same) in_time;
      is_open = rw (← same) is_open;
      certificate = certificate;
    }

pub packed-eq-ok :
    (out : Outside) (r : SigningRequest) (request_id : String) (c : Certificate)
    (resp : SignResponse) (d : SignedDocument)
    → packed out r request_id c resp ≡ ok d
    → (d.request_id ≡ request_id) × (d.certificate_id ≡ c.id)
unfolding packed
packed-eq-ok out r request_id c resp d h = (ground arith, ground arith)

-- The request as it is left: completed with the certificate's id, and otherwise the same.
abbrev pub completed : ℕ → String → SigningRequest → SigningRequest
completed now certificate_id r = request_moved now "COMPLETED" certificate_id "" r

-- A signature that is done. The document is new for its request, was made with the caller's active
-- certificate, and the request alone is completed.
pub record IsSigned (now : ℕ) (user_id request_id : String) (s : SignState)
    (out : Outcome SignState SignedDocument) : Type 0 where
  pub request : SigningRequest
  pub cert : Certificate
  pub document : SignedDocument
  pub guards : IsReady now user_id request_id s request cert
  pub for_request : document.request_id ≡ request_id
  pub by_certificate : document.certificate_id ≡ cert.id
  pub unsigned : lookup request_id s.documents.docs ≡ none
  pub answered : out.1 ≡ reply 200 document
  pub documents : out.0.documents.docs ≡ insert request_id document s.documents.docs
  pub requests : out.0.requests ≡ insert request_id (completed now cert.id request) s.requests
  pub certs : out.0.certs ≡ s.certs
