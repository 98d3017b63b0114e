-- ===== src/Corp/Founding.antt =====
-- Who registers a company with services/garudacorp/handler/register.go, and what that leaves behind.
use gpass.Prelude.{
  any_of, lookup, insert, lookup-insert_self, lookup-insert_ne, String, ◌≡◌, refl, ◌∙◌, ◌⊎◌, inl,
  inr, Bool, true, false, Option, none, some, List, [], ◌∷◌, map, arith, ◌==◌, eq_iff, Bool-cases,
  Option-cases, reply, is_fault,
}
use gpass.Roles.Roles.{RoleStore, assigned, assign}
use mathlib.Core.List.{Mem, mem-cons_self, mem-cons_of_mem}
use gpass.Corp.Register.{
  CompanySearchResponse, AhuOfficer, AhuShareholder, AhuVerifier, RegisterRequest, Drawn,
  registered_role, is_caller, new_officer, RegisterAnswer, new_shareholder, new_entity, or_nil,
  store_entity, found_entity, register_company, register,
}
use gpass.Corp.Entities.{
  Entity, EntityStore, with_officer_ids, entity_stamped, create_entity, with_shareholder_ids,
  add_officers, add_shareholders,
}

any_of-Mem {ℓ} :
    {A : Type ℓ} (p : A → Bool) (xs : List A)
    → any_of p xs ≡ true
    → (x : A) × Mem x xs × (p x ≡ true)
unfolding any_of
any_of-Mem p [] h = cc
any_of-Mem p (x ∷ xs) h = elim (Bool-cases (p x)) [
  | inl e ↦ (x, mem-cons_self, e)
  | inr e ↦
      let (y, held, f) = any_of-Mem p xs (ground (arith, h, e)) in (y, mem-cons_of_mem x held, f)
]

module _ {F : Type 0} (tokenize : String → String) where
  -- what the entity store holds under the new id
  abbrev pub founded :
      Drawn → String → CompanySearchResponse → List AhuOfficer → List (AhuShareholder F) → Entity F
  founded drawn caller_nik company officers shareholders =
      record (entity_stamped drawn.now drawn.entity_uuid (new_entity drawn.now company)) {
        officers =
            with_officer_ids drawn.officer_uuids 0 drawn.entity_uuid
              (map (new_officer tokenize caller_nik) officers);
        shareholders =
            with_shareholder_ids drawn.shareholder_uuids 0 drawn.entity_uuid
              (map new_shareholder shareholders);
      }

  module _ (drawn : Drawn) (caller_nik : String) (company : CompanySearchResponse)
      (officers : List AhuOfficer) (s : EntityStore F) where
    abbrev fresh : Entity F
    fresh = entity_stamped drawn.now drawn.entity_uuid (new_entity drawn.now company)

    -- the entity after `AddOfficers`
    abbrev staffed : Entity F
    staffed = founded drawn caller_nik company officers []

    -- The store holds the new entity, and no other entry has changed.
    pub record IsAdded (e : Entity F) (t : EntityStore F) : Type 0 where
      pub held : lookup drawn.entity_uuid t ≡ some e
      pub others : (id : String) → (drawn.entity_uuid == id) ≡ false → lookup id t ≡ lookup id s

    insert-IsAdded :
        (e f : Entity F) (t : EntityStore F)
        → IsAdded e t
        → IsAdded f (insert drawn.entity_uuid f t)
    insert-IsAdded e f t h = record {
      held = lookup-insert_self drawn.entity_uuid f t;
      others = λ id ne. lookup-insert_ne drawn.entity_uuid id f t ne ∙ h.others id ne;
    }

    fresh-IsAdded : IsAdded fresh (insert drawn.entity_uuid fresh s)
    fresh-IsAdded = record {
      held = lookup-insert_self drawn.entity_uuid fresh s;
      others = λ id ne. lookup-insert_ne drawn.entity_uuid id fresh s ne;
    }

    staffed-IsAdded :
        IsAdded staffed (insert drawn.entity_uuid staffed (insert drawn.entity_uuid fresh s))
    staffed-IsAdded = insert-IsAdded fresh staffed (insert drawn.entity_uuid fresh s) fresh-IsAdded

    store_entity-IsAdded :
        (shareholders : List (AhuShareholder F))
        → IsAdded
            (founded drawn caller_nik company officers shareholders)
            (store_entity tokenize drawn caller_nik company officers shareholders s)
    unfolding store_entity create_entity add_officers add_shareholders
    store_entity-IsAdded [] = rw (fresh-IsAdded.held, add_officers) staffed-IsAdded
    store_entity-IsAdded (h ∷ hs) =
        rw (fresh-IsAdded.held, add_officers)
          (rw (staffed-IsAdded.held, add_shareholders)
            (insert-IsAdded staffed (founded drawn caller_nik company officers (h ∷ hs))
              (insert drawn.entity_uuid staffed (insert drawn.entity_uuid fresh s))
              staffed-IsAdded))

  module _ (ahu : AhuVerifier F) (drawn : Drawn) where
    -- Nothing is stored, and the answer is an error.
    abbrev pub IsRefused : EntityStore F → RoleStore → RegisterAnswer F → Type 0
    IsRefused s roles answer = (answer.0 ≡ s) × (answer.1 ≡ roles) × (is_fault answer.2 ≡ true)

    -- AHU knows the company and names the caller as its Direktur Utama.
    pub record IsEntitled (req : RegisterRequest) : Type 0 where
      pub company : CompanySearchResponse
      pub officers : List AhuOfficer
      pub caller : AhuOfficer
      pub searched : ahu.search_company req.sk_number ≡ some company
      pub found : company.found ≡ true
      pub listed : ahu.get_officers req.sk_number ≡ some officers
      pub held : Mem caller officers
      pub same : tokenize caller.nik ≡ tokenize req.caller_nik
      pub leads : caller.position ≡ "DIREKTUR_UTAMA"

    -- What a registration stores and answers.
    pub record IsRegistered (req : RegisterRequest) (s : EntityStore F) (roles : RoleStore)
        (answer : RegisterAnswer F) : Type 0 where
      pub entitled : IsEntitled req
      pub stored :
          IsAdded drawn req.caller_nik entitled.company entitled.officers s
            (founded drawn req.caller_nik entitled.company entitled.officers
              (or_nil (ahu.get_shareholders req.sk_number)))
            answer.0
      pub assigned_role :
          answer.1
          ≡ insert drawn.role_uuid
              (assigned drawn.now drawn.role_uuid
                (registered_role drawn.entity_uuid req.caller_user_id))
              roles
      pub answered :
          answer.2
          ≡ reply 201 (record { entity_id = drawn.entity_uuid; role = "REGISTERED_OFFICER" })

    register_company_cases :
        (req : RegisterRequest) (s : EntityStore F) (roles : RoleStore)
        → IsRefused s roles (register_company tokenize ahu drawn req s roles)
          ⊎ IsRegistered req s roles (register_company tokenize ahu drawn req s roles)
    unfolding register_company found_entity assign
    register_company_cases req s roles = elim (Option-cases (ahu.search_company req.sk_number)) [
      | inl a ↦ inl (rw (a, register_company) (refl, refl, refl))
      | inr (company, a) ↦ elim (Bool-cases company.found) [
        | inr f ↦ inl (rw (a, register_company) (rw f (refl, refl, refl)))
        | inl f ↦ elim (Option-cases (ahu.get_officers req.sk_number)) [
          | inl g ↦ inl (rw (a, register_company) (rw f (rw g (refl, refl, refl))))
          | inr (officers, g) ↦
              elim (Bool-cases (any_of (is_caller tokenize req.caller_nik) officers)) [
                | inr c ↦ inl (rw (a, register_company) (rw f (rw g (rw c (refl, refl, refl)))))
                | inl c ↦
                    let (o, held, passed) =
                      any_of-Mem (is_caller tokenize req.caller_nik) officers c in
                    inr (
                      rw (a, register_company)
                        (rw f (
                          rw g (
                            rw c (record {
                              entitled = record {
                                company = company;
                                officers = officers;
                                caller = o;
                                searched = a;
                                found = f;
                                listed = g;
                                held = held;
                                same = ground (
                                  arith,
                                  passed,
                                  eq_iff (tokenize o.nik) (tokenize req.caller_nik),
                                );
                                leads = ground (arith, passed, eq_iff o.position "DIREKTUR_UTAMA");
                              };
                              stored =
                                  store_entity-IsAdded drawn req.caller_nik company officers s
                                    (or_nil (ahu.get_shareholders req.sk_number));
                              assigned_role = refl;
                              answered = refl;
                            })))))
              ]
        ]
      ]
    ]

    -- Register either changes neither store and answers with an error, or AHU names the caller as
    -- Direktur Utama of the company: then exactly the new entity, with the officers and shareholders
    -- that AHU names, and the caller's active role as registered officer of it are added.
    pub register_cases :
        (body : Option RegisterRequest) (s : EntityStore F) (roles : RoleStore)
        → IsRefused s roles (register tokenize ahu drawn body s roles)
          ⊎ ((req : RegisterRequest) × (body ≡ some req)
              × IsRegistered req s roles (register tokenize ahu drawn body s roles))
    unfolding register
    register_cases none s roles = inl (refl, refl, refl)
    register_cases (some req) s roles = elim (Bool-cases (req.sk_number == "")) [
      | inl e ↦ inl (rw e (refl, refl, refl))
      | inr e ↦ elim (Bool-cases (req.caller_user_id == "")) [
        | inl m ↦ inl (rw e (rw m (refl, refl, refl)))
        | inr m ↦ elim (Bool-cases (req.caller_nik == "")) [
          | inl n ↦ inl (rw e (rw m (rw n (refl, refl, refl))))
          | inr n ↦ elim (register_company_cases req s roles) [
            | inl u ↦ inl (rw e (rw m (rw n u)))
            | inr d ↦ inr (req, refl, rw e (rw m (rw n d)))
          ]
        ]
      ]
    ]
