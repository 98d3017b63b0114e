-- ===== src/Sign/Once.antt =====
-- A document is signed at most once, and is signed if everything outside the service works
-- (services/garudasign/handler/document.go).
use gpass.Prelude.{
  lookup, lookup-insert_self, ℕ, String, ◌≡◌, refl, ap, ◌∙◌, inl, inr, true, none, some, arith, ok,
  reply, is_fault,
}
use gpass.Sign.Requests.{SigningRequest, SignedDocument, doc_stamped}
use gpass.Sign.Certificates.{Certificate}
use gpass.Sign.Issue.{Outcome}
use gpass.Sign.Documents.{
  Bytes, SignResponse, Outside, SignState, ready, load_document, packed, complete, to_sign, sign,
}
use gpass.Sign.Signing.{ready-eq-ok, packed-eq-ok, IsSigned}
use gpass.Sign.Outcomes.{create_document_new, sign_cases}
use gpass.Sign.Consistency.{
  signing, SignReach, IsConsistent, unsigned_of_open, SignReach-document, next,
}

not_refused :
    {S A : Type 0} (out : Outcome S A) {code : ℕ} {a : A}
    → out.1 ≡ reply code a
    → is_fault out.1 ≡ true
    → ⊥
not_refused out p q = ground (arith, p, q)

-- A call that answers 200 has signed.
sign-IsSigned :
    (out : Outside) (now : ℕ) (doc_id user_id request_id : String) (s : SignState)
    (d : SignedDocument)
    → (sign out now doc_id user_id request_id s).1 ≡ reply 200 d
    → IsSigned now user_id request_id s (sign out now doc_id user_id request_id s)
sign-IsSigned out now doc_id user_id request_id s d h =
    elim (sign_cases out now doc_id user_id request_id s) [
      | inl r ↦ absurd (not_refused (sign out now doc_id user_id request_id s) h r.1)
      | inr (inl f) ↦ absurd (not_refused (sign out now doc_id user_id request_id s) h f.answered)
      | inr (inr g) ↦ g
    ]

-- Once `Sign` has answered 200 for a request, then after any further calls, with fresh ids for new
-- requests, every `Sign` for that request answers with an error, whoever calls, and leaves the
-- stored document in place.
pub sign_once :
    (out later_out : Outside) (now later : ℕ)
    (doc_id later_id user_id later_user request_id : String) (s : SignState) {u : SignState}
    (d : SignedDocument)
    → (sign out now doc_id user_id request_id s).1 ≡ reply 200 d
    → SignReach (sign out now doc_id user_id request_id s).0 u
    → (is_fault (sign later_out later later_id later_user request_id u).1 ≡ true)
      × (lookup request_id (sign later_out later later_id later_user request_id u).0.documents.docs
          ≡ some d)
sign_once out later_out now later doc_id later_id user_id later_user request_id s {u} d h r =
    let g = sign-IsSigned out now doc_id user_id request_id s d h in
    let same : g.document ≡ d = ground (arith, g.answered, h) in
    let t = (sign out now doc_id user_id request_id s).0 in
    let stored : lookup request_id t.documents.docs ≡ some d =
      rw g.documents (lookup-insert_self request_id g.document s.documents.docs ∙ ap some same) in
    let kept = SignReach-document request_id d r stored in
    let step = signing later_out later later_id later_user request_id in
    (
      elim (sign_cases later_out later later_id later_user request_id u) [
        | inl x ↦ x.1
        | inr (inl x) ↦ x.answered
        | inr (inr x) ↦ absurd (ground (arith, x.unsigned, kept))
      ],
      SignReach-document request_id d (next r step) stored,
    )

-- If the guards pass and the storage, the backend and the decoding work, then in a consistent state
-- `Sign` answers 200.
pub sign_progress :
    (out : Outside) (now : ℕ) (doc_id user_id request_id : String) (s : SignState)
    (r : SigningRequest) (c : Certificate) (bytes : Bytes) (resp : SignResponse)
    (d : SignedDocument)
    → IsConsistent s
    → ready now user_id request_id s ≡ ok (r, c)
    → load_document out r.document_path ≡ ok bytes
    → out.sign_document (to_sign out c bytes) ≡ ok resp
    → packed out r request_id c resp ≡ ok d
    → (sign out now doc_id user_id request_id s).1 ≡ reply 200 (doc_stamped now doc_id d)
unfolding sign complete
sign_progress out now doc_id user_id request_id s r c bytes resp d consistent e l b p =
    let g = ready-eq-ok now user_id request_id s r c e in
    let for_request = (packed-eq-ok out r request_id c resp d p).0 in
    let unsigned : lookup request_id s.documents.docs ≡ none =
      unsigned_of_open (consistent request_id) (λ x q. ground (arith, q, g.held, g.is_open)) in
    let x =
      create_document_new now doc_id d s.documents
        (ap (λ k. lookup k s.documents.docs) for_request ∙ unsigned) in
    rw (e, sign) (rw l (rw b (rw p (rw (x, complete) refl))))
