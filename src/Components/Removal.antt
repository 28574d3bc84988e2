-- ===== src/Components/Removal.antt =====
-- Which components are removed: `Cleanup`, internal/controller/components/cleanup.go.
use mathlib.Core.List.Memᴰ
use kcm.Prelude.{
  ◌≡◌, ◌≢◌, refl, sym, ◌∙◌, ap, subst, ◌↔◌, ◌⊎◌, inl, inr, Bool, true, false, true≢false, not, List,
  [], ◌∷◌, Memᴰ, Option, none, some, Option-cases, String, string_eq, ◌==◌, Eq-cases, if◌then◌else◌,
}
use kcm.Api.{Fetched, found, not_found, failed, items}
use kcm.Components.{
  HelmRelease, Cluster, managed_label_value, get_provider_config_secret_name, is_kept, Cleaned,
  remove_secret, remove_component, remove_components, cleanup,
}
use kcm.Components.Wanted.{IsUnwanted, is_kept-IsUnwanted}

module _ (delete_release delete_secret : String → Option String)
    (get_secret : String → Fetched String) where
  -- The deletion of the HelmRelease succeeds, and there is a managed Secret for the component.
  abbrev pub HasSecret : String → Type 0
  HasSecret component =
      (delete_release component ≡ none)
      × (get_secret (get_provider_config_secret_name component) ≡ found managed_label_value)

  remove_secret-cases :
      (secret : String) (later : Cleaned)
      → ((remove_secret delete_release delete_secret get_secret secret later).releases
          ≡ later.releases)
        × (((get_secret secret ≡ found managed_label_value)
              × ((remove_secret delete_release delete_secret get_secret secret later).secrets
                  ≡ secret ∷ later.secrets))
            ⊎ ((get_secret secret ≢ found managed_label_value)
                × ((remove_secret delete_release delete_secret get_secret secret later).secrets
                    ≡ later.secrets)))
  remove_secret-cases secret later = go (get_secret secret) refl
    where
      after : Fetched String → Cleaned
      after f = elim f [
        | not_found ↦ later
        | failed e ↦ record later { errors = e ∷ later.errors }
        | found label ↦
            if not (label == managed_label_value) then later else elim (delete_secret secret) [
              | some e ↦ record later {
                secrets = secret ∷ later.secrets;
                errors = e ∷ later.errors;
              }
              | none ↦ record later { secrets = secret ∷ later.secrets }
            ]
      ]

      go :
          (f : Fetched String)
          → get_secret secret ≡ f
          → ((after f).releases ≡ later.releases)
            × (((get_secret secret ≡ found managed_label_value)
                  × ((after f).secrets ≡ secret ∷ later.secrets))
                ⊎ ((get_secret secret ≢ found managed_label_value)
                    × ((after f).secrets ≡ later.secrets)))
      go not_found h = (refl, inr (λ e. cc (h, e), refl))
      go (failed x) h = (refl, inr (λ e. cc (h, e), refl))
      go (found label) h = elim (Eq-cases label managed_label_value) [
        | inr (other, f) ↦ rw f (refl, inr (λ e. other (cc (h, e)), refl))
        | inl (same, t) ↦ rw t (elim (Option-cases (delete_secret secret)) [
          | inl fine ↦ rw fine (refl, inl (h ∙ ap found same, refl))
          | inr bad ↦ let (x, e) = bad in rw e (refl, inl (h ∙ ap found same, refl))
        ])
      ]

  remove_component-cases :
      (component : String) (later : Cleaned)
      → ((remove_component delete_release delete_secret get_secret component later).releases
          ≡ component ∷ later.releases)
        × ((HasSecret component
              × ((remove_component delete_release delete_secret get_secret component later).secrets
                  ≡ get_provider_config_secret_name component ∷ later.secrets))
            ⊎ ((¬ HasSecret component)
                × ((remove_component delete_release delete_secret get_secret component
                      later).secrets
                    ≡ later.secrets)))
  remove_component-cases component later = go (delete_release component) refl
    where
      secret : String
      secret = get_provider_config_secret_name component

      after : Cleaned
      after = remove_secret delete_release delete_secret get_secret secret later

      removed : Option String → Cleaned
      removed o = elim o [
        | some e ↦ record later { releases = component ∷ later.releases; errors = e ∷ later.errors }
        | none ↦ record after { releases = component ∷ after.releases }
      ]

      go :
          (o : Option String)
          → delete_release component ≡ o
          → ((removed o).releases ≡ component ∷ later.releases)
            × ((HasSecret component × ((removed o).secrets ≡ secret ∷ later.secrets))
                ⊎ ((¬ HasSecret component) × ((removed o).secrets ≡ later.secrets)))
      go (some e) h = (refl, inr (λ has. cc (has.0, h), refl))
      go none h =
          let (same, cases) = remove_secret-cases secret later in
          (
            ap (λ l. component ∷ l) same,
            elim cases [
              | inl (managed, e) ↦ inl ((h, managed), e)
              | inr (unmanaged, e) ↦ inr (λ has. unmanaged has.1, e)
            ],
          )

  abbrev cleaned : Cluster → List String → List HelmRelease → Cleaned
  cleaned c releases hrs = remove_components delete_release delete_secret get_secret c releases hrs

  -- A HelmRelease of the list without an owner, for a component that is not wanted.
  abbrev pub IsRemoved : Cluster → List String → List HelmRelease → String → Type 0
  IsRemoved c releases hrs component =
      (hr : HelmRelease) × Memᴰ hr hrs
      × (hr.name ≡ component)
      × (hr.is_owned ≡ false)
      × IsUnwanted c releases component

  abbrev pub Requests : Cluster → List String → List HelmRelease → Cleaned → Type 0
  Requests c releases hrs done =
      ((component : String) → Memᴰ component done.releases ↔ IsRemoved c releases hrs component)
      × ((secret : String)
          → Memᴰ secret done.secrets ↔ (
              (component : String) × IsRemoved c releases hrs component
              × HasSecret component
              × (secret ≡ get_provider_config_secret_name component)))

  later-IsRemoved :
      (c : Cluster) (releases : List String) (hr : HelmRelease) (hrs : List HelmRelease)
      (component : String)
      → IsRemoved c releases hrs component
      → IsRemoved c releases (hr ∷ hrs) component
  later-IsRemoved c releases hr hrs component (h, m, named, free, unwanted) =
      (h, Memᴰ.tail m, named, free, unwanted)

  -- A HelmRelease that stays changes nothing.
  stays-Requests :
      (c : Cluster) (releases : List String) (hr : HelmRelease) (hrs : List HelmRelease)
      (done : Cleaned)
      → ((component : String)
          → hr.name ≡ component
          → hr.is_owned ≡ false
          → ¬ IsUnwanted c releases component)
      → Requests c releases hrs done
      → Requests c releases (hr ∷ hrs) done
  stays-Requests c releases hr hrs done stays (removals, secrets) = (
    λ component. (
      λ m. later-IsRemoved c releases hr hrs component ((removals component).0 m),
      λ h. (removals component).1 (earlier component h),
    ),
    λ secret. (
      λ m.
          let (component, h, had, named) = (secrets secret).0 m in
          (component, later-IsRemoved c releases hr hrs component h, had, named),
      λ h. (secrets secret).1 (h.0, earlier h.0 h.1, h.2, h.3),
    ),
  )
    where
      earlier :
          (component : String)
          → IsRemoved c releases (hr ∷ hrs) component
          → IsRemoved c releases hrs component
      earlier component (h, m, named, free, unwanted) = elim (Memᴰ.cases_cons m) [
        | inr n ↦ (h, n, named, free, unwanted)
        | inl same ↦ absurd (
            stays component (ap (λ (x : HelmRelease). x.name) (sym same) ∙ named)
              (ap (λ (x : HelmRelease). x.is_owned) (sym same) ∙ free) unwanted)
      ]

  goes-Requests :
      (c : Cluster) (releases : List String) (hr : HelmRelease) (hrs : List HelmRelease)
      (later : Cleaned)
      → hr.is_owned ≡ false
      → IsUnwanted c releases hr.name
      → Requests c releases hrs later
      → Requests c releases
          (hr ∷ hrs)
          (remove_component delete_release delete_secret get_secret hr.name later)
  goes-Requests c releases hr hrs later free unwanted (removals, secrets) = (
    λ component. (
      λ m. elim (Memᴰ.cases_cons (subst (Memᴰ component) asked.0 m)) [
        | inl same ↦ subst (IsRemoved c releases (hr ∷ hrs)) (sym same) here
        | inr n ↦ later-IsRemoved c releases hr hrs component ((removals component).0 n)
      ],
      λ h. subst (Memᴰ component) (sym asked.0) (elim (split component h) [
        | inl same ↦ Memᴰ.head (sym same)
        | inr before ↦ Memᴰ.tail ((removals component).1 before)
      ]),
    ),
    λ secret. elim asked.1 [
      | inl (has, e) ↦ (
        λ m. elim (Memᴰ.cases_cons (subst (Memᴰ secret) e m)) [
          | inl same ↦ (hr.name, here, has, same)
          | inr n ↦ kept secret ((secrets secret).0 n)
        ],
        λ (component, h, had, named). subst (Memᴰ secret) (sym e) (elim (split component h) [
          | inl same ↦ Memᴰ.head (named ∙ ap get_provider_config_secret_name (sym same))
          | inr before ↦ Memᴰ.tail ((secrets secret).1 (component, before, had, named))
        ]),
      )
      | inr (lacks, e) ↦ (
        λ m. kept secret ((secrets secret).0 (subst (Memᴰ secret) e m)),
        λ (component, h, had, named). subst (Memᴰ secret) (sym e) (elim (split component h) [
          | inl same ↦ absurd (lacks (subst HasSecret (sym same) had))
          | inr before ↦ (secrets secret).1 (component, before, had, named)
        ]),
      )
    ],
  )
    where
      done : Cleaned
      done = remove_component delete_release delete_secret get_secret hr.name later

      asked :
          (done.releases ≡ hr.name ∷ later.releases)
          × ((HasSecret hr.name
                × (done.secrets ≡ get_provider_config_secret_name hr.name ∷ later.secrets))
              ⊎ ((¬ HasSecret hr.name) × (done.secrets ≡ later.secrets)))
      asked = remove_component-cases hr.name later

      here : IsRemoved c releases (hr ∷ hrs) hr.name
      here = (hr, Memᴰ.head refl, refl, free, unwanted)

      kept :
          (secret : String)
          → ((component : String) × IsRemoved c releases hrs component
              × HasSecret component
              × (secret ≡ get_provider_config_secret_name component))
          → (component : String) × IsRemoved c releases (hr ∷ hrs) component
            × HasSecret component
            × (secret ≡ get_provider_config_secret_name component)
      kept secret (component, h, had, named) =
          (component, later-IsRemoved c releases hr hrs component h, had, named)

      split :
          (component : String)
          → IsRemoved c releases (hr ∷ hrs) component
          → (hr.name ≡ component) ⊎ IsRemoved c releases hrs component
      split component (h, m, named, free_too, unwanted_too) = elim (Memᴰ.cases_cons m) [
        | inl same ↦ inl (ap (λ (x : HelmRelease). x.name) (sym same) ∙ named)
        | inr n ↦ inr (h, n, named, free_too, unwanted_too)
      ]

  remove_components-Requests :
      (c : Cluster) (releases : List String) (hrs : List HelmRelease)
      → Requests c releases hrs (cleaned c releases hrs)
  remove_components-Requests c releases [] =
      (λ n. (λ m. elim m [ ], λ h. elim h.1 [ ]), λ s. (λ m. elim m [ ], λ h. elim h.1.1 [ ]))
  remove_components-Requests c releases (hr ∷ hrs) =
      go hr.is_owned (is_kept c releases hr.name) refl refl
        (remove_components-Requests c releases hrs)
    where
      later : Cleaned
      later = cleaned c releases hrs

      go :
          (owned wanted : Bool)
          → hr.is_owned ≡ owned
          → is_kept c releases hr.name ≡ wanted
          → Requests c releases hrs later
          → Requests c releases (hr ∷ hrs) (
              if owned
              then later
              else if wanted
              then later
              else remove_component delete_release delete_secret get_secret hr.name later)
      go true wanted o w h =
          stays-Requests c releases hr hrs later (λ n named free unwanted. cc (free, o)) h
      go false true o w h =
          stays-Requests c releases hr hrs later
            (λ n named free unwanted. true≢false (
              sym w ∙ ap (is_kept c releases) named ∙ (is_kept-IsUnwanted c releases n).1 unwanted))
            h
      go false false o w h =
          goes-Requests c releases hr hrs later o ((is_kept-IsUnwanted c releases hr.name).0 w) h

  -- Where the HelmReleases and the Releases are listed, the deletion of a HelmRelease is requested
  -- exactly when it has no owner and its component is neither the core, nor of the KCM chart, nor
  -- the templates of a Release, nor a provider of the cluster; and the deletion of a Secret exactly
  -- when it is the managed Secret of such a component whose HelmRelease was deleted without an
  -- error. An error at one component does not keep the others from being removed.
  pub cleanup-Requests :
      (c : Cluster) (releases : List String) (hrs : List HelmRelease)
      → Requests c releases hrs
          (cleanup delete_release delete_secret get_secret c none (items hrs) (items releases))
  unfolding cleanup
  cleanup-Requests c releases [] =
      (λ n. (λ m. elim m [ ], λ h. elim h.1 [ ]), λ s. (λ m. elim m [ ], λ h. elim h.1.1 [ ]))
  cleanup-Requests c releases (hr ∷ hrs) = remove_components-Requests c releases (hr ∷ hrs)
