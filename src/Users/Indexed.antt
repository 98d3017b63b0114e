-- ===== src/Users/Indexed.antt =====
-- The index of NIK tokens in services/identity/repository/user_memory.go: one user for each token.
use gpass.Prelude.{
  eq_of_test, lookup, insert, lookup-insert_self, lookup-insert_ne, lookup-insert_cases,
  lookup-insert_fresh, ℕ, String, ◌≡◌, refl, sym, ap, ◌∙◌, ◌≢◌, inl, inr, none, some, arith, ◌==◌,
  Bool-cases, Option-cases, ok, err,
}
use gpass.Users.Repository.{
  User, UserRepository, dangling, new_repository, user_stamped, create_user, get_user_by_id,
  get_user_by_nik_token, user_verified, update_verification_status,
}

-- The calls that write, each with what it leaves behind; a new user gets a fresh id.
pub data UserReach : UserRepository → Type 0 where
  empty : UserReach new_repository
  created :
      {r s : UserRepository} {v : User} (now : ℕ) (uuid : String) (u : User)
      → UserReach r
      → lookup uuid r.users ≡ none
      → create_user now (some uuid) u r ≡ ok (v, s)
      → UserReach s
  updated :
      {r s : UserRepository} (now : ℕ) (id status : String)
      → UserReach r
      → update_verification_status now id status r ≡ ok s
      → UserReach s

-- The index and the users agree.
pub record IsIndexed (r : UserRepository) : Type 0 where
  pub found :
      (token id : String)
      → lookup token r.by_nik ≡ some id
      → (u : User) × (lookup id r.users ≡ some u) × (u.nik_token ≡ token)
  pub listed :
      (id : String) (u : User) → lookup id r.users ≡ some u → lookup u.nik_token r.by_nik ≡ some id

empty-IsIndexed : IsIndexed new_repository
unfolding lookup
empty-IsIndexed = record {
  found = λ token id h. absurd (ground (arith, h));
  listed = λ id u h. absurd (ground (arith, h));
}

create_user-eq-ok :
    (now : ℕ) (uuid : String) (u v : User) (r s : UserRepository)
    → create_user now (some uuid) u r ≡ ok (v, s)
    → (lookup u.nik_token r.by_nik ≡ none)
      × (s ≡ record {
        users = insert uuid (user_stamped now uuid u) r.users;
        by_nik = insert u.nik_token uuid r.by_nik;
      })
unfolding create_user
create_user-eq-ok now uuid u v r s h = elim (Option-cases (lookup u.nik_token r.by_nik)) [
  | inl e ↦ let done = rw (e, create_user) at h in (e, ground (arith, done))
  | inr (id, e) ↦ let failure = rw (e, create_user) at h in absurd (ground (arith, failure))
]

update-eq-ok :
    (now : ℕ) (id status : String) (r s : UserRepository)
    → update_verification_status now id status r ≡ ok s
    → (u : User) × (lookup id r.users ≡ some u)
      × (s ≡ record r { users = insert id (user_verified now status u) r.users })
unfolding update_verification_status
update-eq-ok now id status r s h = elim (Option-cases (lookup id r.users)) [
  | inl e ↦
      let failure = rw (e, update_verification_status) at h in absurd (ground (arith, failure))
  | inr (u, e) ↦ let done = rw (e, update_verification_status) at h in (u, e, ground (arith, done))
]

create_user-IsIndexed :
    (now : ℕ) (uuid : String) (u : User) (r : UserRepository)
    → lookup uuid r.users ≡ none
    → lookup u.nik_token r.by_nik ≡ none
    → IsIndexed r
    → IsIndexed (record {
      users = insert uuid (user_stamped now uuid u) r.users;
      by_nik = insert u.nik_token uuid r.by_nik;
    })
create_user-IsIndexed now uuid u r fresh unused h = record {
  found = λ token id e. elim (lookup-insert_cases u.nik_token token uuid id r.by_nik e) [
    | inl (t, i) ↦ (
      user_stamped now uuid u,
      rw (sym i) (lookup-insert_self uuid (user_stamped now uuid u) r.users),
      t,
    )
    | inr (ne, held) ↦
        let (w, there, own) = h.found token id held in
        (w, lookup-insert_fresh uuid id (user_stamped now uuid u) w r.users fresh there, own)
  ];
  listed = λ id w e. elim (lookup-insert_cases uuid id (user_stamped now uuid u) w r.users e) [
    | inl (i, same) ↦ rw (sym same) (rw (sym i) (lookup-insert_self u.nik_token uuid r.by_nik))
    | inr (ne, held) ↦
        lookup-insert_fresh u.nik_token w.nik_token uuid id r.by_nik unused (h.listed id w held)
  ];
}

update-IsIndexed :
    (now : ℕ) (id status : String) (u : User) (r : UserRepository)
    → lookup id r.users ≡ some u
    → IsIndexed r
    → IsIndexed (record r { users = insert id (user_verified now status u) r.users })
update-IsIndexed now id status u r there h = record {
  found = λ token i e.
      let (w, held, own) = h.found token i e in
      elim (Bool-cases (id == i)) [
        | inl m ↦
            let same = eq_of_test id i m in
            let one : u ≡ w = ground (arith, sym there ∙ ap (λ k. lookup k r.users) same ∙ held) in
            (
              user_verified now status u,
              rw (sym same) (lookup-insert_self id (user_verified now status u) r.users),
              ap (λ k. k.nik_token) one ∙ own,
            )
        | inr ne ↦ (w, lookup-insert_ne id i (user_verified now status u) r.users ne ∙ held, own)
      ];
  listed = λ i w e. elim (lookup-insert_cases id i (user_verified now status u) w r.users e) [
    | inl (same, whole) ↦ rw (sym whole) (rw (sym same) (h.listed id u there))
    | inr (ne, held) ↦ h.listed i w held
  ];
}

UserReach-IsIndexed : {r : UserRepository} → UserReach r → IsIndexed r
UserReach-IsIndexed empty = empty-IsIndexed
UserReach-IsIndexed (created {r} {s} {v} now uuid u reach fresh h) =
    let (unused, after) = create_user-eq-ok now uuid u v r s h in
    rw after (create_user-IsIndexed now uuid u r fresh unused (UserReach-IsIndexed reach))
UserReach-IsIndexed (updated {r} {s} now id status reach h) =
    let (u, there, after) = update-eq-ok now id status r s h in
    rw after (update-IsIndexed now id status u r there (UserReach-IsIndexed reach))

get_user_by_id-eq-ok :
    (id : String) (r : UserRepository) (u : User)
    → get_user_by_id id r ≡ ok u
    → lookup id r.users ≡ some u
unfolding get_user_by_id
get_user_by_id-eq-ok id r u h = elim (Option-cases (lookup id r.users)) [
  | inl e ↦ let failure = rw (e, get_user_by_id) at h in absurd (ground (arith, failure))
  | inr (w, e) ↦ let found = rw (e, get_user_by_id) at h in e ∙ ground (arith, found)
]

-- After any calls, with fresh ids for new users, each user that is stored is the one that its NIK
-- token leads to, under one id alone, and no token leads to a missing user.
pub UserReach-one_user :
    {r : UserRepository}
    → UserReach r
    → ((id : String) (u : User)
        → get_user_by_id id r ≡ ok u
        → get_user_by_nik_token u.nik_token r ≡ ok u)
      × ((i j : String) (u v : User)
          → get_user_by_id i r ≡ ok u
          → get_user_by_id j r ≡ ok v
          → u.nik_token ≡ v.nik_token
          → i ≡ j)
      × ((token : String) → get_user_by_nik_token token r ≢ err dangling)
unfolding get_user_by_nik_token
UserReach-one_user {r} reach =
    let indexed = UserReach-IsIndexed reach in
    (
      λ id u h.
          let held = get_user_by_id-eq-ok id r u h in
          rw (indexed.listed id u held, get_user_by_nik_token) (rw held refl),
      λ i j u v h k e.
          let left = indexed.listed i u (get_user_by_id-eq-ok i r u h) in
          let right = indexed.listed j v (get_user_by_id-eq-ok j r v k) in
          ground (arith, sym left ∙ ap (λ t. lookup t r.by_nik) e ∙ right),
      λ token h. elim (Option-cases (lookup token r.by_nik)) [
        | inl e ↦ let failure = rw (e, get_user_by_nik_token) at h in ground (arith, failure)
        | inr (id, e) ↦
            let (u, held, _) = indexed.found token id e in
            let failure = rw held at (rw (e, get_user_by_nik_token) at h) in ground (arith, failure)
      ],
    )
