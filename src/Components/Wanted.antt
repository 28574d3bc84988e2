-- ===== src/Components/Wanted.antt =====
-- Which components are wanted: `Cleanup`, internal/controller/components/cleanup.go.
use kcm.Prelude.{
  ◌≡◌, ◌≢◌, ◌↔◌, inl, inr, false, List, Memᴰ, String, string_eq, ◌==◌, Eq-cases, Bool-cases, any,
  any→mem, mem→any,
}
use kcm.Components.{
  Cluster, core_capi_name, release_name, templates_chart_from_release_name, is_kept,
}

-- The component is not the core, nor of the KCM chart, nor the templates of a Release, nor a
-- provider of the cluster.
abbrev pub IsUnwanted : Cluster → List String → String → Type 0
IsUnwanted c releases component =
    (component ≢ release_name c.prefix core_capi_name)
    × (component ≢ release_name c.prefix c.kcm_chart_name)
    × ((r : String) → Memᴰ r releases → component ≢ templates_chart_from_release_name r)
    × ((p : String) → Memᴰ p c.providers → component ≢ release_name c.prefix p)

differs : (a b : String) → (a == b) ≡ false → a ≢ b
differs a b f e = cc ((string_eq.beq_iff a b).1 e, f)

any-differs :
    (component : String) (name_of : String → String) (names : List String)
    → (any (λ n. component == name_of n) names ≡ false)
      ↔ ((n : String) → Memᴰ n names → component ≢ name_of n)
any-differs component name_of names = (
  λ f n m e. cc (
    mem→any (λ x. component == name_of x) names m ((string_eq.beq_iff component (name_of n)).1 e),
    f,
  ),
  λ h. elim (Bool-cases (any (λ n. component == name_of n) names)) [
    | inr f ↦ f
    | inl t ↦
        let (n, m, same) = any→mem (λ x. component == name_of x) names t in
        absurd (h n m ((string_eq.beq_iff component (name_of n)).0 same))
  ],
)

pub is_kept-IsUnwanted :
    (c : Cluster) (releases : List String) (component : String)
    → (is_kept c releases component ≡ false) ↔ IsUnwanted c releases component
is_kept-IsUnwanted c releases component =
    let charts = any-differs component templates_chart_from_release_name releases in
    let providers = any-differs component (release_name c.prefix) c.providers in
    elim (Eq-cases component (release_name c.prefix core_capi_name)) [
      | inl (same, t) ↦ rw t (λ h. cc h, λ h. absurd (h.0 same))
      | inr (core, f) ↦ elim (Eq-cases component (release_name c.prefix c.kcm_chart_name)) [
        | inl (same, t) ↦ rw (f, t) (λ h. cc h, λ h. absurd (h.1 same))
        | inr (kcm_chart, g) ↦
            elim (Bool-cases
              (any (λ r. component == templates_chart_from_release_name r) releases)) [
                | inl t ↦ rw (f, g, t) (λ h. cc h, λ h. cc (charts.1 h.2, t))
                | inr u ↦
                    rw (f, g, u)
                      (λ h. (core, kcm_chart, charts.0 u, providers.0 h), λ h. providers.1 h.3)
              ]
      ]
    ]
