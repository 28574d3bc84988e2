-- ===== src/Backup/Statuses.antt =====
-- What the statuses tell of the requested backups: `createAllScheduledBackups`,
-- internal/controller/backup/schedule.go, with setError of reconcile.go.
use kcm.Prelude.{
  ℕ, ◌≡◌, ◌≢◌, refl, sym, ◌∙◌, ap, subst, inl, inr, true, false, List, [], ◌∷◌, map, Memᴰ, Option,
  none, some, String, ◌==◌, string_eq, Eq-cases, Bool-cases, arith, contains, IsNodup, append_str,
  if◌then◌else◌,
}
use kcm.Backup.{
  RegionStatus, ManagementBackup, Creation, created, meta_error, create_error, RegionClient,
  is_used, upsert, with_error, only_error, with_backup, only_backup, after_region, Created,
  create_regional,
}

-- The first entry of a region.
abbrev pub entry_of : String → List RegionStatus → Option RegionStatus
entry_of region [] = none
entry_of region (s ∷ statuses) =
    let rest = entry_of region statuses in if s.region == region then some s else rest

abbrev changed : (RegionStatus → RegionStatus) → RegionStatus → Option RegionStatus → RegionStatus
changed change fresh none = fresh
changed change fresh (some s) = change s

upsert-entry :
    (region : String) (change : RegionStatus → RegionStatus) (fresh : RegionStatus)
    (statuses : List RegionStatus)
    → fresh.region ≡ region
    → ((s : RegionStatus) → (change s).region ≡ s.region)
    → entry_of region (upsert region change fresh statuses)
      ≡ some (changed change fresh (entry_of region statuses))
upsert-entry region change fresh [] p q = rw ((string_eq.beq_iff fresh.region region).1 p) refl
upsert-entry region change fresh (s ∷ statuses) p q = elim (Bool-cases (s.region == region)) [
  | inl t ↦ rw t (
      rw
        ((string_eq.beq_iff (change s).region region).1
          (q s ∙ (string_eq.beq_iff s.region region).0 t))
        refl)
  | inr f ↦ rw f (rw f (upsert-entry region change fresh statuses p q))
]

upsert-other :
    (region other : String) (change : RegionStatus → RegionStatus) (fresh : RegionStatus)
    (statuses : List RegionStatus)
    → fresh.region ≡ region
    → ((s : RegionStatus) → (change s).region ≡ s.region)
    → region ≢ other
    → entry_of other (upsert region change fresh statuses) ≡ entry_of other statuses
upsert-other region other change fresh [] p q apart = elim (Eq-cases fresh.region other) [
  | inl (same, t) ↦ absurd (apart (sym p ∙ same))
  | inr (d, f) ↦ rw f refl
]
upsert-other region other change fresh (s ∷ statuses) p q apart = elim (Eq-cases s.region region) [
  | inl (same, t) ↦ elim (Eq-cases (change s).region other) [
    | inl (met, u) ↦ absurd (apart (sym same ∙ sym (q s) ∙ met))
    | inr (d, f) ↦ elim (Eq-cases s.region other) [
      | inl (met, u) ↦ absurd (apart (sym same ∙ met))
      | inr (e, g) ↦ rw t (rw (f, g) refl)
    ]
  ]
  | inr (d, f) ↦ rw f (
      ap (λ (rest : Option RegionStatus). if s.region == other then some s else rest)
        (upsert-other region other change fresh statuses p q apart))
]

module _ (create : (region name : String) → Creation) (name_for : String → String)
    (update : ManagementBackup → Option String) (now : ℕ) where
  -- What an entry tells of the creation in its region.
  abbrev pub Tells : String → Creation → RegionStatus → Type 0
  Tells region created s =
      (s.last_backup_name ≡ name_for region) × (s.last_backup_time ≡ some now) × (s.error_text ≡ "")
  Tells region (meta_error e) s = s.error_text ≡ append_str "Probably Velero is not installed: " e
  Tells region (create_error e) s = s.error_text ≡ e

  abbrev entry_in : String → ManagementBackup → Option RegionStatus
  entry_in region b = entry_of region b.regions_last_backups

  erred :
      (region message : String) (o : Option RegionStatus)
      → (changed (with_error message) (only_error region message) o).error_text ≡ message
  erred region message none = refl
  erred region message (some s) = refl

  after_region-Tells :
      (next : ℕ) (region : String) (o : Creation) (b : ManagementBackup)
      → (region == "") ≡ false
      → (s : RegionStatus) × (entry_in region
            (after_region create name_for update now next region o b)
          ≡ some s)
        × Tells region o s
  after_region-Tells next region created b f = (
    _,
    upsert-entry region (with_backup (name_for region) now next)
        (only_backup region (name_for region) now next) b.regions_last_backups refl (λ s. refl),
    told (entry_in region b),
  )
    where
      told :
          (o : Option RegionStatus)
          → Tells region created (
              changed
                (with_backup (name_for region) now next)
                (only_backup region (name_for region) now next)
                o)
      told none = (refl, refl, refl)
      told (some s) = (refl, refl, refl)
  after_region-Tells next region (meta_error e) b f = rw f (
    _,
    upsert-entry region (with_error (append_str "Probably Velero is not installed: " e))
        (only_error region (append_str "Probably Velero is not installed: " e))
        b.regions_last_backups refl (λ s. refl),
    erred region (append_str "Probably Velero is not installed: " e) (entry_in region b),
  )
  after_region-Tells next region (create_error e) b f = rw f (
    _,
    upsert-entry region (with_error e) (only_error region e) b.regions_last_backups refl
        (λ s. refl),
    erred region e (entry_in region b),
  )

  after_region-other :
      (next : ℕ) (region other : String) (o : Creation) (b : ManagementBackup)
      → (region == "") ≡ false
      → region ≢ other
      → entry_in other (after_region create name_for update now next region o b) ≡ entry_in other b
  after_region-other next region other created b f apart =
      upsert-other region other (with_backup (name_for region) now next)
        (only_backup region (name_for region) now next) b.regions_last_backups refl (λ s. refl)
        apart
  after_region-other next region other (meta_error e) b f apart = rw f (
      upsert-other region other (with_error (append_str "Probably Velero is not installed: " e))
        (only_error region (append_str "Probably Velero is not installed: " e))
        b.regions_last_backups refl (λ s. refl) apart)
  after_region-other next region other (create_error e) b f apart = rw f (
      upsert-other region other (with_error e) (only_error region e) b.regions_last_backups refl
        (λ s. refl) apart)

  used-named : (c : RegionClient) → is_used c ≡ true → (c.region == "") ≡ false
  used-named c h = ground arith

  abbrev regions_of : List RegionClient → List String
  regions_of clients = map (λ (c : RegionClient). c.region) clients

  abbrev run : (next : ℕ) → List RegionClient → Created → Created
  run next clients b = create_regional create name_for update now next clients b

  create_regional-other :
      (next : ℕ) (clients : List RegionClient) (b : Created) (other : String)
      → contains (regions_of clients) other ≡ false
      → entry_in other (run next clients b).backup ≡ entry_in other b.backup
  create_regional-other next [] b other h = refl
  create_regional-other next (c ∷ clients) b other h = elim (Eq-cases c.region other) [
    | inl (same, t) ↦ cc (rw t at h)
    | inr (apart, g) ↦ elim (Bool-cases (is_used c)) [
      | inr f ↦ rw f (create_regional-other next clients b other (rw g at h))
      | inl t ↦ rw t (
          create_regional-other next clients _ other (rw g at h)
          ∙ after_region-other next c.region other (create c.region (name_for c.region)) b.backup
              (used-named c t) apart)
    ]
  ]

  -- For clients of distinct regions, after the loop over the regions each region with a loaded
  -- client has an entry that tells how its backup's creation ended: the name and the time of the
  -- backup and no error, or else the error, whatever happened in the other regions. The entries of
  -- regions without a client stay as they were.
  pub create_regional-Tells :
      (next : ℕ) (clients : List RegionClient) (b : Created)
      → IsNodup (map (λ (c : RegionClient). c.region) clients)
      → ((c : RegionClient)
          → Memᴰ c clients
          → is_used c ≡ true
          → (s : RegionStatus) × (entry_of c.region
                (create_regional create name_for update now next clients
                  b).backup.regions_last_backups
              ≡ some s)
            × Tells c.region (create c.region (name_for c.region)) s)
        × ((other : String)
            → contains (map (λ (c : RegionClient). c.region) clients) other ≡ false
            → entry_of other
                (create_regional create name_for update now next clients
                  b).backup.regions_last_backups
              ≡ entry_of other b.backup.regions_last_backups)
  create_regional-Tells next clients b distinct =
      (each clients b distinct, λ other h. create_regional-other next clients b other h)
    where
      each :
          (clients : List RegionClient) (b : Created)
          → IsNodup (regions_of clients)
          → (c : RegionClient) → Memᴰ c clients
          → is_used c ≡ true
          → (s : RegionStatus) × (entry_in c.region (run next clients b).backup ≡ some s)
            × Tells c.region (create c.region (name_for c.region)) s
      each [] b h c m used = elim m [ ]
      each (d ∷ clients) b h c (Memᴰ.head e) used =
          let on : is_used d ≡ true = ap is_used (sym e) ∙ used in
          let (s, at, told) =
            after_region-Tells next d.region (create d.region (name_for d.region)) b.backup
              (used-named d on) in
          subst
            (λ (x : RegionClient).
              (s : RegionStatus) × (entry_in x.region (run next (d ∷ clients) b).backup ≡ some s)
              × Tells x.region (create x.region (name_for x.region)) s)
            (sym e) (s, rw on (create_regional-other next clients _ d.region h.0 ∙ at), told)
      each (d ∷ clients) b h c (Memᴰ.tail m) used = elim (Bool-cases (is_used d)) [
        | inl t ↦ rw t (each clients _ h.1 c m used)
        | inr f ↦ rw f (each clients b h.1 c m used)
      ]
