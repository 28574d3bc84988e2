-- ===== src/Access/Targets.antt =====
-- How the loops of `desiredTargets` extend the targets that they have found,
-- internal/util/accessmanagement/accessmanagement.go.
use mathlib.Core.List.Memᴰ
use kcm.Prelude.{
  ◌≡◌, refl, sym, ◌∙◌, ap, subst, ◌⊎◌, inl, inr, ◌↔◌, true, List, [], ◌∷◌, Memᴰ, String, string_eq,
  key_eq, Bool-cases, arith, contains, IsNodup, IsNodup-snoc, contains-append, contains→mem,
}
use kcm.Access.{GroupKind, gk_beq}
use kcm.Access.Plan.{Target, Found, add_desired, add_target_names, add_namespaces}

-- The set of seen targets is that of the desired ones, and none is there twice.
abbrev pub WellFound : Found → Type 0
WellFound f = ((t : Target) → contains f.seen t ≡ contains f.desired t) × IsNodup f.desired

-- The desired targets of `g` are those of `f` and the ones with `P`.
abbrev pub Extends : Found → Found → (Target → Type 0) → Type 0
Extends f g P =
    WellFound f → WellFound g × ((u : Target) → Memᴰ u g.desired ↔ (P u ⊎ Memᴰ u f.desired))

pub Extends-trans :
    (f g h : Found) {P Q R : Target → Type 0}
    → Extends f g P
    → Extends g h Q
    → ((u : Target) → R u ↔ (P u ⊎ Q u))
    → Extends f h R
Extends-trans f g h first second split well =
    let (well_g, mem_g) = first well in
    let (well_h, mem_h) = second well_g in
    (
      well_h,
      λ u. (
        λ m. elim ((mem_h u).0 m) [
          | inl q ↦ inl ((split u).1 (inr q))
          | inr n ↦ elim ((mem_g u).0 n) [ inl p ↦ inl ((split u).1 (inl p)) | inr o ↦ inr o ]
        ],
        λ c. elim c [
          | inl r ↦ elim ((split u).0 r) [
            | inl p ↦ (mem_h u).1 (inr ((mem_g u).1 (inl p)))
            | inr q ↦ (mem_h u).1 (inl q)
          ]
          | inr o ↦ (mem_h u).1 (inr ((mem_g u).1 (inr o)))
        ],
      ),
    )

pub Extends-refl : (f : Found) (P : Target → Type 0) → ((u : Target) → ¬ P u) → Extends f f P
Extends-refl f P never well =
    (well, λ u. (λ m. inr m, λ c. elim c [ inl p ↦ absurd (never u p) | inr m ↦ m ]))

add_desired-Extends : (t : Target) (f : Found) → Extends f (add_desired t f) (λ u. u ≡ t)
add_desired-Extends t f well = elim (Bool-cases (contains f.seen t)) [
  | inl seen ↦
      let there : Memᴰ t f.desired = contains→mem f.desired t (sym (well.0 t) ∙ seen) in
      rw seen (
        well,
        λ u. (
          λ m. inr m,
          λ c. elim c [ inl p ↦ subst (λ v. Memᴰ v f.desired) (sym p) there | inr m ↦ m ],
        ),
      )
  | inr new ↦ rw new (
    (
      λ u. ground (arith, contains-append f.desired (t ∷ []) u, well.0 u),
      IsNodup-snoc f.desired t well.1 (sym (well.0 t) ∙ new),
    ),
    λ u. (
      λ m. elim (Memᴰ.append_cases f.desired m) [
        | inl o ↦ inr o
        | inr n ↦ elim (Memᴰ.cases_cons n) [ inl p ↦ inl p | inr z ↦ elim z [ ] ]
      ],
      λ c. elim c [
        | inl p ↦ Memᴰ.append_right f.desired (Memᴰ.head p)
        | inr o ↦ Memᴰ.append_left (t ∷ []) o
      ],
    ),
  )
]

add_target_names-Extends :
    (ns : String) (names : List String) (f : Found)
    → Extends f (add_target_names ns names f) (λ u. (u.namespace ≡ ns) × Memᴰ u.name names)
add_target_names-Extends ns [] f = Extends-refl f _ (λ u p. elim p.1 [ ])
add_target_names-Extends ns (name ∷ names) f =
    Extends-trans f _ _ (add_desired-Extends (record { namespace = ns; name = name }) f)
      (add_target_names-Extends ns names (add_desired (record { namespace = ns; name = name }) f))
      (λ u. (
        λ p. elim (Memᴰ.cases_cons p.1) [
          | inl e ↦ inl (same_target u ns name p.0 e)
          | inr m ↦ inr (p.0, m)
        ],
        λ c. elim c [
          | inl e ↦ (ap (λ (t : Target). t.namespace) e, Memᴰ.head (ap (λ (t : Target). t.name) e))
          | inr q ↦ (q.0, Memᴰ.tail q.1)
        ],
      ))
  where
    same_target :
        (u : Target) (ns name : String)
        → u.namespace ≡ ns
        → u.name ≡ name
        → u ≡ (record { namespace = ns; name = name })
    same_target u ns name p q = cc (p, q)

pub add_namespaces-Extends :
    (nss names : List String) (f : Found)
    → Extends f (add_namespaces nss names f) (λ u. Memᴰ u.namespace nss × Memᴰ u.name names)
add_namespaces-Extends [] names f = Extends-refl f _ (λ u p. elim p.0 [ ])
add_namespaces-Extends (ns ∷ nss) names f =
    Extends-trans f _ _ (add_target_names-Extends ns names f)
      (add_namespaces-Extends nss names (add_target_names ns names f))
      (λ u. (
        λ p. elim (Memᴰ.cases_cons p.0) [ inl e ↦ inl (e, p.1) | inr m ↦ inr (m, p.1) ],
        λ c. elim c [ inl q ↦ (Memᴰ.head q.0, q.1) | inr q ↦ (Memᴰ.tail q.0, q.1) ],
      ))

pub gk_beq_iff : (a b : GroupKind) → (gk_beq a b ≡ true) ↔ (a ≡ b)
unfolding gk_beq
gk_beq_iff a b = (
  ground (arith, string_eq.beq_iff a.group b.group, string_eq.beq_iff a.kind b.kind),
  λ p. ground (arith, string_eq.beq_iff a.group b.group, string_eq.beq_iff a.kind b.kind),
)

pub gk_beq_refl : (a : GroupKind) → gk_beq a a ≡ true
gk_beq_refl a = (gk_beq_iff a a).1 refl
