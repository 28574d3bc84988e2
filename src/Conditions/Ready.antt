-- ===== src/Conditions/Ready.antt =====
-- When an object is ready: `UpdateReadyCondition`, internal/util/conditions/ready_condition.go.
use kcm.Prelude.{
  ℕ, zero, suc, ◌≡◌, ◌≢◌, refl, sym, ◌∙◌, ap, ◌↔◌, inl, inr, Bool, true, false, not, ◌&&◌, ◌||◌,
  List, [], ◌∷◌, Option, none, some, String, if◌then◌else◌, ◌==◌, string_eq, Bool-cases,
  Option-cases, arith, all, length,
}
use kcm.Conditions.{
  ConditionStatus, condition_true, condition_false, condition_unknown, Condition, Messages,
  is_status_true, find_true, by_status, sort_messages, is_none, build_ready_condition,
  ready_condition, update_ready_condition,
}

-- The first condition of a type.
abbrev pub find_condition : String → List Condition → Option Condition
find_condition type [] = none
find_condition type (c ∷ conditions) =
    let rest = find_condition type conditions in if c.type == type then some c else rest

module _ (handle : Condition → String × String) where
  abbrev pub status_fine : Condition → ConditionStatus → Bool
  status_fine c condition_true = true
  status_fine c condition_unknown = false
  status_fine c condition_false = (handle c).0 == "" && (handle c).1 == ""

  -- A condition that does not keep the object from being ready: Ready and Deleting do not count, a
  -- Paused one must not say that it is, and any other one is true, or false without an error and
  -- without a warning.
  abbrev pub is_fine : Condition → Bool
  is_fine c =
      if c.type == "Ready" || c.type == "Deleting"
      then true
      else if c.type == "Paused"
      then not (is_status_true c.status && c.reason == "Paused")
      else status_fine c c.status

  abbrev nothing_in : Messages → Bool
  nothing_in m = is_none m.errs && (is_none m.warnings && is_none m.unknowns)

  by_status-nothing :
      (c : Condition) (s : ConditionStatus) (m : Messages)
      → nothing_in (by_status handle c s m) ≡ (status_fine c s && nothing_in m)
  by_status-nothing c condition_true m = refl
  by_status-nothing c condition_unknown m = ground arith
  by_status-nothing c condition_false m = elim (Bool-cases ((handle c).0 == "")) [
    | inl t ↦ elim (Bool-cases ((handle c).1 == "")) [
      | inl u ↦ rw (t, u) refl
      | inr f ↦ rw (t, f) (ground arith)
    ]
    | inr f ↦ rw f refl
  ]

  sort_messages-nothing :
      (cs : List Condition) → nothing_in (sort_messages handle cs) ≡ all is_fine cs
  sort_messages-nothing [] = refl
  sort_messages-nothing (c ∷ cs) = elim (Bool-cases (c.type == "Ready" || c.type == "Deleting")) [
    | inl t ↦ rw t (sort_messages-nothing cs)
    | inr f ↦ elim (Bool-cases (c.type == "Paused")) [
      | inl p ↦ elim (Bool-cases (is_status_true c.status && c.reason == "Paused")) [
        | inl t ↦ rw (f, p, t) refl
        | inr n ↦ rw (f, p, n) (sort_messages-nothing cs)
      ]
      | inr n ↦
          rw (f, n)
            (by_status-nothing c c.status (sort_messages handle cs)
              ∙ ap (λ b. status_fine c c.status && b) (sort_messages-nothing cs))
    ]
  ]

build-true_iff :
    (m : Messages) (total generation : ℕ)
    → ((build_ready_condition m.errs m.warnings m.unknowns total generation).status
        ≡ condition_true)
      ↔ ((is_none m.errs && (is_none m.warnings && is_none m.unknowns) ≡ true) × (total ≢ 0))
unfolding build_ready_condition
build-true_iff m total generation = go m.errs m.warnings m.unknowns total
  where
    go :
        (errs warnings unknowns : List String) (total : ℕ)
        → ((build_ready_condition errs warnings unknowns total generation).status ≡ condition_true)
          ↔ ((is_none errs && (is_none warnings && is_none unknowns) ≡ true) × (total ≢ 0))
    go (e ∷ errs) warnings unknowns total = (λ h. cc h, λ h. cc h.0)
    go [] (w ∷ warnings) unknowns total = (λ h. cc h, λ h. cc h.0)
    go [] [] unknowns zero = (λ h. cc h, λ h. absurd (h.1 refl))
    go [] [] (u ∷ unknowns) (suc total) = (λ h. cc h, λ h. cc h.0)
    go [] [] [] (suc total) = (λ h. (refl, λ e. absurd (omega (arith, e))), λ h. refl)

build-type :
    (errs warnings unknowns : List String) (total generation : ℕ)
    → (build_ready_condition errs warnings unknowns total generation).type ≡ "Ready"
unfolding build_ready_condition
build-type (e ∷ errs) warnings unknowns total generation = refl
build-type [] (w ∷ warnings) unknowns total generation = refl
build-type [] [] unknowns zero generation = refl
build-type [] [] (u ∷ unknowns) (suc total) generation = refl
build-type [] [] [] (suc total) generation = refl

module _ (set_status_condition : List Condition → Condition → List Condition)
    (handle : Condition → String × String)
    (sets : (conditions : List Condition) (c : Condition)
      → find_condition c.type (set_status_condition conditions c) ≡ some c) where
  -- No condition says that the object is being deleted, there is a condition, and all are fine.
  abbrev pub IsReady : List Condition → Type 0
  IsReady conditions =
      (find_true "Deleting" conditions ≡ none)
      × (conditions ≢ [])
      × (all (is_fine handle) conditions ≡ true)

  ready_condition-true_iff :
      (conditions : List Condition) (generation : ℕ)
      → ((ready_condition handle conditions generation).status ≡ condition_true)
        ↔ IsReady conditions
  unfolding ready_condition
  ready_condition-true_iff conditions generation =
      elim (Option-cases (find_true "Deleting" conditions)) [
        | inr deleting ↦ let (d, e) = deleting in rw (e, ready_condition) (λ h. cc h, λ h. cc h.0)
        | inl stays ↦
            let built =
              build-true_iff (sort_messages handle conditions) (length conditions) generation in
            let nothing = sort_messages-nothing handle conditions in
            rw (stays, ready_condition)
              (
                λ h.
                    let (quiet, some_there) = built.0 h in
                    (refl, λ e. some_there (ap length e), sym nothing ∙ quiet),
                λ h. built.1 (nothing ∙ h.2, counted conditions h.1),
              )
      ]
    where
      counted : (cs : List Condition) → cs ≢ [] → length cs ≢ 0
      counted [] h e = h refl
      counted (c ∷ cs) h e = omega (arith, e)

  ready-type :
      (conditions : List Condition) (generation : ℕ)
      → (ready_condition handle conditions generation).type ≡ "Ready"
  unfolding ready_condition
  ready-type conditions generation = elim (Option-cases (find_true "Deleting" conditions)) [
    | inr deleting ↦ let (d, e) = deleting in rw (e, ready_condition) refl
    | inl stays ↦
        rw (stays, ready_condition)
          (build-type (sort_messages handle conditions).errs
            (sort_messages handle conditions).warnings (sort_messages handle conditions).unknowns
            (length conditions) generation)
  ]

  -- An update leaves a Ready condition, if setting a condition makes it the first of its type. That
  -- condition is true exactly when no condition says that the object is being deleted, there is a
  -- condition at all, and each one other than Ready and Deleting is fine: a Paused one does not
  -- pause, and any other is true, or is false without an error and without a warning.
  pub update_ready_condition-IsReady :
      (conditions : List Condition) (generation : ℕ)
      → (c : Condition) × (find_condition "Ready"
            (update_ready_condition handle set_status_condition conditions generation)
          ≡ some c)
        × ((c.status ≡ condition_true) ↔ IsReady conditions)
  unfolding update_ready_condition
  update_ready_condition-IsReady conditions generation =
      let ready = ready_condition handle conditions generation in
      (
        ready,
        ap (λ t. find_condition t (set_status_condition conditions ready))
              (sym (ready-type conditions generation))
            ∙ sets conditions ready,
        ready_condition-true_iff conditions generation,
      )
