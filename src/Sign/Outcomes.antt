-- ===== src/Sign/Outcomes.antt =====
-- The three outcomes of `Sign` (services/garudasign/handler/document.go).
use gpass.Prelude.{
  lookup, insert, ℕ, String, ◌≡◌, refl, sym, ap, ◌∙◌, ◌⊎◌, inl, inr, true, none, some, Option-cases,
  ok, err, Result-cases, is_fault,
}
use gpass.Sign.Certificates.{Certificate}
use gpass.Sign.Requests.{
  SigningRequest, SignedDocument, DocumentStore, request_moved, update_request, doc_stamped,
  create_document, document_exists,
}
use gpass.Sign.Issue.{Outcome}
use gpass.Sign.Documents.{
  SignState, moved, complete, Outside, ready, load_document, packed, to_sign, sign,
}
use gpass.Sign.Signing.{IsReady, IsSigned, ready-eq-ok, packed-eq-ok, completed}

-- Refused: nothing changes, and the reply is an error.
abbrev pub IsRefusal : SignState → Outcome SignState SignedDocument → Type 0
IsRefusal s out = (out.0 ≡ s) × (is_fault out.1 ≡ true)

-- The backend failed: the request alone is marked as failed, and the reply is an error.
pub record IsFailure (now : ℕ) (user_id request_id : String) (s : SignState)
    (out : Outcome SignState SignedDocument) : Type 0 where
  pub request : SigningRequest
  pub cert : Certificate
  pub message : String
  pub guards : IsReady now user_id request_id s request cert
  pub answered : is_fault out.1 ≡ true
  pub after : out.0 ≡ record s {
    requests = insert request_id (request_moved now "FAILED" "" message request) s.requests;
  }

module _ (now : ℕ) where
  moved_held :
      (id status certificate_id message : String) (s : SignState) (r : SigningRequest)
      → lookup id s.requests ≡ some r
      → moved now id status certificate_id message s ≡ record s {
        requests = insert id (request_moved now status certificate_id message r) s.requests;
      }
  unfolding moved update_request
  moved_held id status certificate_id message s r e = rw (e, moved, update_request) refl

  abbrev pub stored_in : String → SignedDocument → DocumentStore → DocumentStore
  stored_in doc_id d s = record {
    docs = insert d.request_id (doc_stamped now doc_id d) s.docs;
    by_id = insert doc_id (doc_stamped now doc_id d) s.by_id;
  }

  pub create_document_new :
      (doc_id : String) (d : SignedDocument) (s : DocumentStore)
      → lookup d.request_id s.docs ≡ none
      → create_document now doc_id d s ≡ ok (doc_stamped now doc_id d, stored_in doc_id d s)
  unfolding create_document
  create_document_new doc_id d s e = rw (e, create_document) refl

  create_document_again :
      (doc_id : String) (d old : SignedDocument) (s : DocumentStore)
      → lookup d.request_id s.docs ≡ some old
      → create_document now doc_id d s ≡ err (document_exists d.request_id)
  unfolding create_document
  create_document_again doc_id d old s e = rw (e, create_document) refl

  complete_cases :
      (doc_id user_id request_id : String) (d : SignedDocument) (s : SignState) (r : SigningRequest)
      (c : Certificate)
      → IsReady now user_id request_id s r c
      → d.request_id ≡ request_id
      → d.certificate_id ≡ c.id
      → IsRefusal s (complete now doc_id user_id request_id d s)
        ⊎ IsSigned now user_id request_id s (complete now doc_id user_id request_id d s)
  unfolding complete
  complete_cases doc_id user_id request_id d s r c g for_request by_cert =
      elim (Option-cases (lookup d.request_id s.documents.docs)) [
        | inr (old, e) ↦
            let x = create_document_again doc_id d old s.documents e in
            inl (rw (x, complete) refl, rw (x, complete) refl)
        | inl e ↦
            let x = create_document_new doc_id d s.documents e in
            let t : SignState = record s { documents = stored_in doc_id d s.documents } in
            let m = moved_held request_id "COMPLETED" d.certificate_id "" t r g.held in
            inr (record {
              request = r;
              cert = c;
              document = doc_stamped now doc_id d;
              guards = g;
              for_request = for_request;
              by_certificate = by_cert;
              unsigned = ap (λ k. lookup k s.documents.docs) (sym for_request) ∙ e;
              answered = rw (x, complete) refl;
              documents =
                  rw (x, complete)
                    (rw m
                      (ap (λ k. insert k (doc_stamped now doc_id d) s.documents.docs) for_request));
              requests =
                  rw (x, complete)
                    (rw m (ap (λ k. insert request_id (completed now k r) s.requests) by_cert));
              certs = rw (x, complete) (rw m refl);
            })
      ]

-- Every call of `Sign` is refused with nothing changed, or fails at the backend and marks the
-- request as failed, or signs.
pub sign_cases :
    (out : Outside) (now : ℕ) (doc_id user_id request_id : String) (s : SignState)
    → IsRefusal s (sign out now doc_id user_id request_id s)
      ⊎ IsFailure now user_id request_id s (sign out now doc_id user_id request_id s)
      ⊎ IsSigned now user_id request_id s (sign out now doc_id user_id request_id s)
unfolding sign
sign_cases out now doc_id user_id request_id s =
    elim (Result-cases (ready now user_id request_id s)) [
      | inr (f, e) ↦ inl (rw (e, sign) refl, rw (e, sign) refl)
      | inl ((r, c), e) ↦
          let g = ready-eq-ok now user_id request_id s r c e in
          elim (Result-cases (load_document out r.document_path)) [
            | inr (f, l) ↦ inl (rw (e, sign) (rw l refl), rw (e, sign) (rw l refl))
            | inl (bytes, l) ↦ elim (Result-cases (out.sign_document (to_sign out c bytes))) [
              | inr (message, b) ↦ inr (
                  inl (record {
                    request = r;
                    cert = c;
                    message = message;
                    guards = g;
                    answered = rw (e, sign) (rw l (rw b refl));
                    after =
                        rw (e, sign)
                          (rw l (rw b (moved_held now request_id "FAILED" "" message s r g.held)));
                  }))
              | inl (resp, b) ↦ elim (Result-cases (packed out r request_id c resp)) [
                | inr (f, p) ↦
                    inl (
                      rw (e, sign) (rw l (rw b (rw p refl))),
                      rw (e, sign) (rw l (rw b (rw p refl))),
                    )
                | inl (d, p) ↦
                    let (for_request, by_cert) = packed-eq-ok out r request_id c resp d p in
                    elim (complete_cases now doc_id user_id request_id d s r c g for_request
                      by_cert) [
                        | inl refused ↦ inl (rw (e, sign) (rw l (rw b (rw p refused))))
                        | inr signed ↦ inr (inr (rw (e, sign) (rw l (rw b (rw p signed)))))
                      ]
              ]
            ]
          ]
    ]
