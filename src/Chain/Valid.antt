-- ===== src/Chain/Valid.antt =====
-- What `IsValid` accepts, api/v1beta1/templatechain_common.go.
use mathlib.Core.List.Memᴰ
use kcm.Prelude.{
  ◌≡◌, refl, sym, ◌∙◌, ap, subst, ◌⊎◌, inl, inr, ◌↔◌, Bool, true, false, true≢false, not, List, [],
  ◌∷◌, ◌++◌, map, Memᴰ, String, string_eq, if◌then◌else◌, Bool-cases, any, any→mem, mem→any,
  filter_by, contains, contains→mem, mem→contains,
}
use kcm.Api.{AvailableUpgrade, SupportedTemplate, TemplateChainSpec}
use kcm.Chain.{
  Warning, not_supported, mixed_versions, has_version, add_names, available_for_upgrade, is_mixed,
  chain_warnings, chain_is_valid,
}

-- A name that some template of the list may upgrade to.
abbrev pub IsTarget : List SupportedTemplate → String → Type 0
IsTarget ts n =
    (t : SupportedTemplate) × (u : AvailableUpgrade) × Memᴰ t ts
    × Memᴰ u t.available_upgrades
    × (u.name ≡ n)

mem-add_names :
    (us : List AvailableUpgrade) (names : List String) (n : String)
    → Memᴰ n (add_names us names)
      ↔ (Memᴰ n names ⊎ ((u : AvailableUpgrade) × Memᴰ u us × (u.name ≡ n)))
unfolding add_names
mem-add_names [] names n = (λ m. inl m, λ h. elim h [ inl m ↦ m | inr (u, m, e) ↦ elim m [ ] ])
mem-add_names (u ∷ us) names n = elim (Bool-cases (contains names u.name)) [
  | inl old ↦
      let later = mem-add_names us names n in
      (
        λ m. elim (later.0 (rw old at m)) [
          | inl o ↦ inl o
          | inr (v, o, e) ↦ inr (v, Memᴰ.tail o, e)
        ],
        λ h. rw old (
            later.1 (elim h [
              | inl o ↦ inl o
              | inr (v, o, e) ↦ elim (Memᴰ.cases_cons o) [
                | inl p ↦ inl (
                    subst (λ x. Memᴰ x names) (ap (λ y. y.name) (sym p) ∙ e)
                      (contains→mem names u.name old))
                | inr q ↦ inr (v, q, e)
              ]
            ])),
      )
  | inr new ↦
      let later = mem-add_names us (u.name ∷ names) n in
      (
        λ m. elim (later.0 (rw new at m)) [
          | inl o ↦ elim (Memᴰ.cases_cons o) [
            | inl p ↦ inr (u, Memᴰ.head refl, sym p)
            | inr q ↦ inl q
          ]
          | inr (v, o, e) ↦ inr (v, Memᴰ.tail o, e)
        ],
        λ h. rw new (
            later.1 (elim h [
              | inl o ↦ inl (Memᴰ.tail o)
              | inr (v, o, e) ↦ elim (Memᴰ.cases_cons o) [
                | inl p ↦ inl (Memᴰ.head (sym e ∙ ap (λ y. y.name) p))
                | inr q ↦ inr (v, q, e)
              ]
            ])),
      )
]

mem-available :
    (ts : List SupportedTemplate) (names : List String) (n : String)
    → Memᴰ n (available_for_upgrade ts names) ↔ (Memᴰ n names ⊎ IsTarget ts n)
unfolding available_for_upgrade
mem-available [] names n =
    (λ m. inl m, λ h. elim h [ inl m ↦ m | inr (t, u, m, o, e) ↦ elim m [ ] ])
mem-available (t ∷ ts) names n =
    let own = mem-add_names t.available_upgrades names n in
    let later = mem-available ts (add_names t.available_upgrades names) n in
    (
      λ m. elim (later.0 m) [
        | inl o ↦ elim (own.0 o) [
          | inl q ↦ inl q
          | inr (u, q, e) ↦ inr (t, u, Memᴰ.head refl, q, e)
        ]
        | inr (s, u, o, q, e) ↦ inr (s, u, Memᴰ.tail o, q, e)
      ],
      λ h. later.1 (elim h [
        | inl o ↦ inl (own.1 (inl o))
        | inr (s, u, o, q, e) ↦ elim (Memᴰ.cases_cons o) [
          | inl p ↦ inl (own.1 (inr (u, subst (λ x. Memᴰ u x.available_upgrades) p q, e)))
          | inr r ↦ inr (s, u, r, q, e)
        ]
      ]),
    )

-- All upgrades of a template have a version, or none has.
abbrev pub IsUniform : SupportedTemplate → Type 0
IsUniform t =
    (u v : AvailableUpgrade)
    → Memᴰ u t.available_upgrades
    → Memᴰ v t.available_upgrades
    → has_version u ≡ has_version v

differs : (a b : Bool) → (if a then not b else b) ≡ false → a ≡ b
differs true true h = refl
differs true false h = absurd (true≢false h)
differs false true h = absurd (true≢false h)
differs false false h = refl

differs_self : (a b : Bool) → a ≡ b → (if a then not b else b) ≡ false
differs_self true b e = rw (sym e) refl
differs_self false b e = sym e

is_mixed_iff : (t : SupportedTemplate) → (is_mixed t ≡ false) ↔ IsUniform t
is_mixed_iff t = go t.available_upgrades
  where
    go :
        (us : List AvailableUpgrade)
        → ((elim us [
          | [] ↦ false
          | u ∷ rest ↦ any (λ v. if has_version u then not (has_version v) else has_version v) rest
        ])
            ≡ false)
          ↔ ((u v : AvailableUpgrade) → Memᴰ u us → Memᴰ v us → has_version u ≡ has_version v)
    go [] = (λ h u v m n. elim m [ ], λ h. refl)
    go (u ∷ rest) =
        let test =
          λ (v : AvailableUpgrade). if has_version u then not (has_version v) else has_version v in
        (
          λ h.
              let same : (v : AvailableUpgrade)
                  → Memᴰ v (u ∷ rest)
                  → has_version u ≡ has_version v =
                λ v m. elim (Memᴰ.cases_cons m) [
                  | inl p ↦ ap has_version (sym p)
                  | inr n ↦ differs (has_version u) (has_version v) (elim (Bool-cases (test v)) [
                    | inl t ↦ absurd (true≢false (sym (mem→any test rest n t) ∙ h))
                    | inr f ↦ f
                  ])
                ] in
              λ v w m n. sym (same v m) ∙ same w n,
          λ h. elim (Bool-cases (any test rest)) [
            | inr f ↦ f
            | inl t ↦
                let (v, m, p) = any→mem test rest t in
                absurd (
                  true≢false (
                    sym p
                    ∙ differs_self (has_version u) (has_version v)
                        (h u v (Memᴰ.head refl) (Memᴰ.tail m))))
          ],
        )

filter_by-nil :
    {A : Type 0} (p : A → Bool) (xs : List A)
    → (filter_by p xs ≡ []) ↔ ((x : A) → Memᴰ x xs → p x ≡ false)
filter_by-nil p [] = (λ h x m. elim m [ ], λ h. refl)
filter_by-nil p (x ∷ xs) =
    let later = filter_by-nil p xs in
    elim (Bool-cases (p x)) [
      | inl t ↦ (λ h. cc (rw t at h), λ h. absurd (true≢false (sym t ∙ h x (Memᴰ.head refl))))
      | inr f ↦ (
        λ h y m. elim (Memᴰ.cases_cons m) [ inl e ↦ ap p e ∙ f | inr n ↦ later.0 (rw f at h) y n ],
        λ h. rw f (later.1 (λ y n. h y (Memᴰ.tail n))),
      )
    ]

-- No warning means that neither part has one.
chain_is_valid-nil :
    (xs ys : List Warning)
    → ((elim (xs ++ ys) [ [] ↦ true | w ∷ ws ↦ false ]) ≡ true) ↔ ((xs ≡ []) × (ys ≡ []))
chain_is_valid-nil [] [] = (λ h. (refl, refl), λ h. refl)
chain_is_valid-nil [] (b ∷ ys) = (λ h. absurd (true≢false (sym h)), λ h. cc)
chain_is_valid-nil (a ∷ xs) ys = (λ h. absurd (true≢false (sym h)), λ h. cc)

map-nil : {A B : Type 0} (f : A → B) (xs : List A) → (map f xs ≡ []) ↔ (xs ≡ [])
map-nil f [] = (λ h. refl, λ h. refl)
map-nil f (x ∷ xs) = (λ h. cc, λ h. cc)

-- `IsValid` accepts a chain exactly when every template that one may upgrade to is supported, and
-- of the upgrades of one template all have a version or none has.
pub chain_is_valid_iff :
    (s : TemplateChainSpec)
    → (chain_is_valid s ≡ true) ↔ (
        ((n : String)
          → IsTarget s.supported_templates n
          → Memᴰ n (map (λ t. t.name) s.supported_templates))
        × ((t : SupportedTemplate) → Memᴰ t s.supported_templates → IsUniform t))
unfolding chain_is_valid chain_warnings
chain_is_valid_iff s =
    let ts = s.supported_templates in
    let supported = map (λ (t : SupportedTemplate). t.name) ts in
    let unknown = λ (n : String). not (contains supported n) in
    let targets = available_for_upgrade ts [] in
    let parts =
      chain_is_valid-nil (map not_supported (filter_by unknown targets))
        (map (λ t. mixed_versions t.name) (filter_by is_mixed ts)) in
    let known = filter_by-nil unknown targets in
    let uniform = filter_by-nil is_mixed ts in
    (
      λ h.
          let (a, b) = parts.0 h in
          (
            λ n g.
                let fine =
                  known.0 ((map-nil not_supported (filter_by unknown targets)).0 a) n
                    ((mem-available ts [] n).1 (inr g)) in
                contains→mem supported n (not_false (contains supported n) fine),
            λ t m. (is_mixed_iff t).0 (
                uniform.0 ((map-nil (λ x. mixed_versions x.name) (filter_by is_mixed ts)).0 b) t m),
          ),
      λ (h, k). parts.1 (
        (map-nil not_supported (filter_by unknown targets)).1 (
            known.1 (λ n m. elim ((mem-available ts [] n).0 m) [
              | inl o ↦ elim o [ ]
              | inr g ↦ rw (mem→contains supported n (h n g)) refl
            ])),
        (map-nil (λ x. mixed_versions x.name) (filter_by is_mixed ts)).1
            (uniform.1 (λ t m. (is_mixed_iff t).1 (k t m))),
      ),
    )
  where
    not_false : (b : Bool) → not b ≡ false → b ≡ true
    not_false true h = refl
    not_false false h = absurd (true≢false h)
