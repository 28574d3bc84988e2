-- ===== src/Validation/Policies/Unique.antt =====
-- Which RBAC policies are accepted: `ValidateRBACPolicy`, internal/util/validation/rbacpolicy.go.
use kcm.Prelude.{
  ◌≢◌, ◌≡◌, refl, sym, ◌↔◌, inl, inr, true, false, List, [], ◌∷◌, map, none, String, string_eq,
  ◌==◌, Eq, Bool-cases, All, filter_by, contains, IsNodup, append_str, Eq-cases,
}
use kcm.Validation.Policies.{
  RbacPolicySubject, RbacPolicyBinding, subject_eq, has_any, repeats,
  cluster_role_binding_name_prefix, validate_bindings, validate_rbac_policy,
}

-- No element twice, and none that was seen.
abbrev Fresh {ℓ} : {A : Type ℓ} ⦃e : Eq A⦄ → List A → List A → Type 0
Fresh seen [] = Unit
Fresh seen (x ∷ xs) = (contains seen x ≡ false) × Fresh (x ∷ seen) xs

module _ {ℓ} {A : Type ℓ} ⦃e : Eq A⦄ where
  abbrev Unseen : List A → List A → Type 0
  Unseen seen xs = All (λ x. contains seen x ≡ false) xs

  Unseen-cons :
      (x : A) (seen xs : List A) → Unseen (x ∷ seen) xs ↔ ((contains xs x ≡ false) × Unseen seen xs)
  Unseen-cons x seen [] = (λ h. (refl, tt), λ h. tt)
  Unseen-cons x seen (y ∷ ys) = elim (Eq-cases x y) [
    | inl (same, t) ↦
        let back : (y == x) ≡ true = (e.beq_iff y x).1 (sym same) in
        (λ h. cc (rw t at h.0), λ h. cc (rw back at h.0))
    | inr (other, f) ↦
        let back : (y == x) ≡ false = not_same y x (λ p. other (sym p)) in
        rw (f, back)
          (
            λ h. let (new, old) = (Unseen-cons x seen ys).0 h.1 in (new, (h.0, old)),
            λ h. (h.1.0, (Unseen-cons x seen ys).1 (h.0, h.1.1)),
          )
  ]
    where
      not_same : (a b : A) → a ≢ b → (a == b) ≡ false
      not_same a b h = elim (Eq-cases a b) [ inl (p, t) ↦ absurd (h p) | inr (p, f) ↦ f ]

  Fresh-iff : (seen xs : List A) → Fresh seen xs ↔ (IsNodup xs × Unseen seen xs)
  Fresh-iff seen [] = (λ h. (tt, tt), λ h. tt)
  Fresh-iff seen (x ∷ xs) = (
    λ h.
        let (once, unseen) = (Fresh-iff (x ∷ seen) xs).0 h.1 in
        let (new, old) = (Unseen-cons x seen xs).0 unseen in ((new, once), (h.0, old)),
    λ h.
        let ((new, once), (here, old)) = h in
        (here, (Fresh-iff (x ∷ seen) xs).1 (once, (Unseen-cons x seen xs).1 (new, old))),
  )

  Unseen-nil : (xs : List A) → Unseen [] xs
  Unseen-nil [] = tt
  Unseen-nil (x ∷ xs) = (refl, Unseen-nil xs)

  Fresh-nil_iff : (xs : List A) → Fresh [] xs ↔ IsNodup xs
  Fresh-nil_iff xs = (λ h. ((Fresh-iff [] xs).0 h).0, λ h. (Fresh-iff [] xs).1 (h, Unseen-nil xs))

repeats_iff : (seen xs : List RbacPolicySubject) → (repeats seen xs ≡ false) ↔ Fresh seen xs
repeats_iff seen [] = (λ h. tt, λ h. refl)
repeats_iff seen (x ∷ xs) = elim (Bool-cases (contains seen x)) [
  | inl t ↦ rw t (λ h. cc h, λ h. cc h.0)
  | inr f ↦
      rw f (λ h. (refl, (repeats_iff (x ∷ seen) xs).0 h), λ h. (repeats_iff (x ∷ seen) xs).1 h.1)
]

abbrev pub with_rules : List RbacPolicyBinding → List RbacPolicyBinding
with_rules bindings = filter_by (λ b. has_any b.rules) bindings

module _ (is_subdomain : String → List String) where
  -- A binding that is fine by itself: the name of its ClusterRoleBinding is valid, no subject is
  -- there twice, and where it has rules, so is the name of its ClusterRole.
  abbrev pub IsSound : RbacPolicyBinding → Type 0
  IsSound b =
      (has_any (is_subdomain (append_str cluster_role_binding_name_prefix b.name)) ≡ false)
      × IsNodup b.subjects
      × (has_any b.rules ≡ true → has_any (is_subdomain b.cluster_role) ≡ false)

  abbrev Accepted : List String → List String → List RbacPolicyBinding → Type 0
  Accepted names roles bs =
      Fresh names (map (λ (b : RbacPolicyBinding). b.name) bs)
      × Fresh roles (map (λ (b : RbacPolicyBinding). b.cluster_role) (with_rules bs))
      × All IsSound bs

  validate_bindings_iff :
      (names roles : List String) (bs : List RbacPolicyBinding)
      → (validate_bindings is_subdomain names roles bs ≡ none) ↔ Accepted names roles bs
  validate_bindings_iff names roles [] = (λ h. (tt, tt, tt), λ h. refl)
  validate_bindings_iff names roles (b ∷ bs) = elim (Bool-cases (contains names b.name)) [
    | inl t ↦ rw t (λ h. cc h, λ h. cc h.0.0)
    | inr new ↦
        elim (Bool-cases
          (has_any (is_subdomain (append_str cluster_role_binding_name_prefix b.name)))) [
            | inl t ↦ rw (new, t) (λ h. cc h, λ h. cc h.2.0.0)
            | inr valid ↦ elim (Bool-cases (repeats [] b.subjects)) [
              | inl t ↦
                  rw (new, valid, t)
                    (
                      λ h. cc h,
                      λ h.
                          cc (
                            (repeats_iff [] b.subjects).1 ((Fresh-nil_iff b.subjects).1 h.2.0.1),
                            t,
                          ),
                    )
              | inr once ↦
                  let distinct =
                    (Fresh-nil_iff b.subjects).0 ((repeats_iff [] b.subjects).0 once) in
                  elim (Bool-cases (has_any b.rules)) [
                    | inr plain ↦
                        let rest = validate_bindings_iff (b.name ∷ names) roles bs in
                        rw (new, valid, once, plain)
                          (
                            λ h.
                                let (n, r, s) = rest.0 h in
                                ((refl, n), r, ((refl, distinct, λ x. cc x), s)),
                            λ h. rest.1 (h.0.1, h.1, h.2.1),
                          )
                    | inl ruled ↦ elim (Bool-cases (has_any (is_subdomain b.cluster_role))) [
                      | inl t ↦ rw (new, valid, once, ruled, t) (λ h. cc h, λ h. cc (h.2.0.2 refl))
                      | inr fine ↦ elim (Bool-cases (contains roles b.cluster_role)) [
                        | inl t ↦ rw (new, valid, once, ruled, fine, t) (λ h. cc h, λ h. cc h.1.0)
                        | inr own ↦
                            let rest =
                              validate_bindings_iff (b.name ∷ names) (b.cluster_role ∷ roles) bs in
                            rw (new, valid, once, ruled, fine, own)
                              (
                                λ h.
                                    let (n, r, s) = rest.0 h in
                                    ((refl, n), (refl, r), ((refl, distinct, λ x. refl), s)),
                                λ h. rest.1 (h.0.1, h.1.1, h.2.1),
                              )
                      ]
                    ]
                  ]
            ]
          ]
  ]

  -- An RBAC policy is accepted exactly when no two of its bindings have one name, no two bindings
  -- with rules have one ClusterRole, and each binding is fine by itself: the name of its
  -- ClusterRoleBinding is valid, its subjects are distinct, and a ClusterRole that has rules has a
  -- valid name.
  pub validate_rbac_policy_iff :
      (bindings : List RbacPolicyBinding)
      → (validate_rbac_policy is_subdomain bindings ≡ none) ↔ (
          IsNodup (map (λ (b : RbacPolicyBinding). b.name) bindings)
          × IsNodup (map (λ (b : RbacPolicyBinding). b.cluster_role) (with_rules bindings))
          × All IsSound bindings)
  unfolding validate_rbac_policy
  validate_rbac_policy_iff bindings =
      let names = Fresh-nil_iff (map (λ (b : RbacPolicyBinding). b.name) bindings) in
      let roles =
        Fresh-nil_iff (map (λ (b : RbacPolicyBinding). b.cluster_role) (with_rules bindings)) in
      let whole = validate_bindings_iff [] [] bindings in
      (
        λ h. let (n, r, s) = whole.0 h in (names.0 n, roles.0 r, s),
        λ h. whole.1 (names.1 h.0, roles.1 h.1, h.2),
      )
