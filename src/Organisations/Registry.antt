-- ===== src/Organisations/Registry.antt =====
-- orgs.service.ts: the unique constraints over the operations.
use mastermind_7dtd_ai_serve.Base.{
  ℕ, suc, ◌≤◌, ◌<◌, ◌≡◌, refl, sym, ap, ◌∙◌, Bool, true, false, Option, none, some, List, [], ◌∷◌,
  ◌++◌, arith, ◌==◌, ◌⊎◌, inl, inr, Bool-cases, delete_where, count_where, count_where-none,
  count_where-delete-le, count_where-find_none, count_where-append_one, All, All-map, All-append,
}
use mastermind_7dtd_ai_serve.Base.Text.{Text, text_eq, text_eq_iff}
use mastermind_7dtd_ai_serve.Accounts.{UserOrg, Role, Accounts, role_from, resolve_role}
use mastermind_7dtd_ai_serve.Guards.{is_member}
use mastermind_7dtd_ai_serve.Organisations.{find_role}
use mastermind_7dtd_ai_serve.Organisations.Admins.{IsRegistry}

older :
    (n : ℕ) {A : Type 0} (key : A → ℕ) (xs : List A)
    → All (λ x. key x < n) xs
    → All (λ x. key x < suc n) xs
older n key xs h = All-map (λ x l. omega arith) xs h

fresh-count :
    {A : Type 0} (key : A → ℕ) (n : ℕ) (xs : List A)
    → All (λ x. key x < n) xs
    → count_where (λ x. key x == n) xs ≡ 0
fresh-count key n xs h = count_where-none (λ x. key x == n) xs (All-map (λ x l. ground arith) xs h)

role_from-IsRegistry :
    (o : Option Role) (name : Text) (a : Accounts)
    → find_role name a.roles ≡ o
    → IsRegistry a
    → IsRegistry (role_from o name a).1
role_from-IsRegistry (some r) name a e k = k
role_from-IsRegistry none name a e k =
    let new : Role = record { id = a.next_id; name = name } in
    record {
      members = k.members;
      role_names = λ t.
          count_where-append_one (λ r. text_eq r.name t) a.roles new (k.role_names t)
            (λ same.
              ap (λ s. count_where (λ r. text_eq r.name s) a.roles)
                (sym ((text_eq_iff name t).0 same))
              ∙ count_where-find_none (λ r. text_eq r.name name) a.roles e);
      role_ids = λ i.
          count_where-append_one (λ r. r.id == i) a.roles new (k.role_ids i)
            (λ same.
              let n : a.next_id ≡ i = ground arith in
              ap (λ j. count_where (λ r. r.id == j) a.roles) (sym n)
              ∙ fresh-count (λ r. r.id) a.next_id a.roles k.fresh_roles);
      fresh_roles =
          All-append (λ r. r.id < suc a.next_id) a.roles (new ∷ [])
            (older a.next_id (λ r. r.id) a.roles k.fresh_roles) (omega arith, tt);
      fresh_users = older a.next_id (λ m. m.user_id) a.user_orgs k.fresh_users;
      fresh_orgs = older a.next_id (λ m. m.org_id) a.user_orgs k.fresh_orgs;
    }

pub resolve_role-IsRegistry :
    (name : Text) (a : Accounts) → IsRegistry a → IsRegistry (resolve_role name a).1
unfolding resolve_role
resolve_role-IsRegistry name a k = role_from-IsRegistry (find_role name a.roles) name a refl k

-- A membership of a new user or a new organisation.
pub IsRegistry-joined :
    (a a' : Accounts) (m : UserOrg)
    → IsRegistry a
    → a'.roles ≡ a.roles
    → a'.user_orgs ≡ a.user_orgs ++ m ∷ []
    → a'.next_id ≡ suc a.next_id
    → m.user_id ≤ a.next_id
    → m.org_id ≤ a.next_id
    → ((m.user_id ≡ a.next_id) ⊎ (m.org_id ≡ a.next_id))
    → IsRegistry a'
IsRegistry-joined a a' m k roles joined next user org new = record {
  members = λ u o. rw joined (
      count_where-append_one (is_member u o) a.user_orgs m (k.members u o)
        (λ same. count_where-none (is_member u o) a.user_orgs (absent u o same new)));
  role_names = rw roles k.role_names;
  role_ids = rw roles k.role_ids;
  fresh_roles = rw (roles, next) (older a.next_id (λ r. r.id) a.roles k.fresh_roles);
  fresh_users =
      rw (joined, next)
        (All-append (λ x. x.user_id < suc a.next_id) a.user_orgs (m ∷ [])
          (older a.next_id (λ x. x.user_id) a.user_orgs k.fresh_users) (omega arith, tt));
  fresh_orgs =
      rw (joined, next)
        (All-append (λ x. x.org_id < suc a.next_id) a.user_orgs (m ∷ [])
          (older a.next_id (λ x. x.org_id) a.user_orgs k.fresh_orgs) (omega arith, tt));
}
  where
    absent :
        (u o : ℕ)
        → is_member u o m ≡ true
        → (m.user_id ≡ a.next_id) ⊎ (m.org_id ≡ a.next_id)
        → All (λ x. is_member u o x ≡ false) a.user_orgs
    absent u o same (inl e) = All-map (λ x l. ground arith) a.user_orgs k.fresh_users
    absent u o same (inr e) = All-map (λ x l. ground arith) a.user_orgs k.fresh_orgs

All-delete_where :
    {A : Type 0} (P : A → Type 0) (p : A → Bool) (xs : List A)
    → All P xs
    → All P (delete_where p xs)
unfolding delete_where
All-delete_where P p [] h = tt
All-delete_where P p (x ∷ xs) (h, hs) = elim (Bool-cases (p x)) [
  | inl t ↦ rw t (All-delete_where P p xs hs)
  | inr g ↦ rw g (h, All-delete_where P p xs hs)
]

pub IsRegistry-deleted :
    (a a' : Accounts) (p : UserOrg → Bool)
    → IsRegistry a
    → a'.roles ≡ a.roles
    → a'.user_orgs ≡ delete_where p a.user_orgs
    → a'.next_id ≡ a.next_id
    → IsRegistry a'
IsRegistry-deleted a a' p k roles less next = record {
  members = λ u o. rw less (
      let l = count_where-delete-le p (is_member u o) a.user_orgs in
      let one = k.members u o in omega arith);
  role_names = rw roles k.role_names;
  role_ids = rw roles k.role_ids;
  fresh_roles = rw (roles, next) k.fresh_roles;
  fresh_users = rw (less, next) (All-delete_where _ p a.user_orgs k.fresh_users);
  fresh_orgs = rw (less, next) (All-delete_where _ p a.user_orgs k.fresh_orgs);
}
