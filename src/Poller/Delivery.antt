-- ===== src/Poller/Delivery.antt =====
-- What becomes of the objects that ticks return: the runner of internal/util/poller/runner.go.
use kcm.Prelude.{
  ◌==◌, string_eq, zero, suc, ◌≤◌, ◌≡◌, refl, sym, ◌∙◌, ap, subst, inl, inr, Bool, true, false,
  ◌&&◌, ◌||◌, List, [], ◌∷◌, ◌++◌, append_assoc, some, Bool-cases, length, arith, ℤ, pos, negsuc,
  non_positive, Resolved, ok, error,
}
use kcm.Poller.{
  Config, PollerOption, with_interval, with_buffer_size, with_name, default_config, apply_option,
  apply_options, Runner, make_runner, new_runner, start, begin_tick, is_full, select_on, receive_on,
  Step, starts, cancels, ticks, selects, receives, closes, Reached, initially, after,
}

-- A list is made up of two, each in its order.
pub data Shuffle {A : Type 0} : List A → List A → List A → Type 0 where
  both_empty : Shuffle [] [] []
  left : {x : A} {xs ys zs : List A} → Shuffle xs ys zs → Shuffle (x ∷ xs) ys (x ∷ zs)
  right : {y : A} {xs ys zs : List A} → Shuffle xs ys zs → Shuffle xs (y ∷ ys) (y ∷ zs)

module _ {A : Type 0} where
  Shuffle-lefts : (os : List A) → Shuffle os [] os
  Shuffle-lefts [] = both_empty
  Shuffle-lefts (o ∷ os) = left (Shuffle-lefts os)

  Shuffle-rights : (os : List A) → Shuffle [] os os
  Shuffle-rights [] = both_empty
  Shuffle-rights (o ∷ os) = right (Shuffle-rights os)

  Shuffle-append :
      {xs ys zs ks ls ms : List A}
      → Shuffle xs ys zs
      → Shuffle ks ls ms
      → Shuffle (xs ++ ks) (ys ++ ls) (zs ++ ms)
  Shuffle-append both_empty t = t
  Shuffle-append (left s) t = left (Shuffle-append s t)
  Shuffle-append (right s) t = right (Shuffle-append s t)

  append_nil : (xs : List A) → xs ++ [] ≡ xs
  append_nil [] = refl
  append_nil (x ∷ xs) = ap (λ l. x ∷ l) (append_nil xs)

  length-snoc : (xs : List A) (x : A) → length (xs ++ (x ∷ [])) ≡ suc (length xs)
  length-snoc [] x = refl
  length-snoc (y ∷ xs) x = ap suc (length-snoc xs x)

module _ {T : Type 0} where
  -- Of the objects that ticks returned, those that are not pending were read, are on the channel or
  -- were given up, each once, and each of these in the order in which they were returned.
  abbrev pub Accounted : Runner T → Type 0
  Accounted r =
      (past : List T) × (r.offered ≡ past ++ r.pending)
      × Shuffle (r.received ++ r.events) r.dropped past

  -- The channel keeps to its capacity, and once it is closed nothing is left to be sent.
  abbrev pub IsOrderly : Runner T → Type 0
  IsOrderly r =
      (length r.events ≤ r.capacity)
      × (r.closed ≡ true → (r.cancelled ≡ true) × (r.pending ≡ []))
      × Accounted r

  starts-IsOrderly : (r r' : Runner T) → start r ≡ ok r' → IsOrderly r → IsOrderly r'
  starts-IsOrderly r r' e h = elim (Bool-cases r.started) [
    | inl t ↦ cc (rw t at e)
    | inr f ↦ let same : record r { started = true } ≡ r' = cc (rw f at e) in subst IsOrderly same h
  ]

  stopped-IsOrderly :
      (r : Runner T)
      → IsOrderly r
      → IsOrderly (record r { pending = []; dropped = r.dropped ++ r.pending })
  stopped-IsOrderly r (fits, done, (past, e, s)) = (
    fits,
    λ t. ((done t).0, refl),
    (
      past ++ r.pending,
      e ∙ sym (append_nil (past ++ r.pending)),
      subst (λ l. Shuffle l (r.dropped ++ r.pending) (past ++ r.pending))
          (append_nil (r.received ++ r.events)) (Shuffle-append s (Shuffle-rights r.pending)),
    ),
  )

  lost-IsOrderly :
      (r : Runner T) (obj : T) (objs : List T)
      → r.pending ≡ obj ∷ objs
      → IsOrderly r
      → IsOrderly (record r { pending = objs; dropped = r.dropped ++ (obj ∷ []) })
  lost-IsOrderly r obj objs p (fits, done, (past, e, s)) = (
    fits,
    λ t. cc (p, (done t).1),
    (
      past ++ (obj ∷ []),
      e ∙ ap (λ l. past ++ l) p ∙ sym (append_assoc past (obj ∷ []) objs),
      subst (λ l. Shuffle l (r.dropped ++ (obj ∷ [])) (past ++ (obj ∷ [])))
          (append_nil (r.received ++ r.events)) (Shuffle-append s (Shuffle-rights (obj ∷ []))),
    ),
  )

  sent-IsOrderly :
      (r : Runner T) (obj : T) (objs : List T)
      → r.pending ≡ obj ∷ objs
      → is_full r ≡ false
      → IsOrderly r
      → IsOrderly (record r { pending = objs; events = r.events ++ (obj ∷ []) })
  sent-IsOrderly r obj objs p room (fits, done, (past, e, s)) = (
    subst (λ n. n ≤ r.capacity) (sym (length-snoc r.events obj)) (ground arith),
    λ t. cc (p, (done t).1),
    (
      past ++ (obj ∷ []),
      e ∙ ap (λ l. past ++ l) p ∙ sym (append_assoc past (obj ∷ []) objs),
      subst (λ l. Shuffle l r.dropped (past ++ (obj ∷ [])))
          (append_assoc r.received r.events (obj ∷ []))
          (subst (λ l. Shuffle ((r.received ++ r.events) ++ (obj ∷ [])) l (past ++ (obj ∷ [])))
            (append_nil r.dropped) (Shuffle-append s (Shuffle-lefts (obj ∷ [])))),
    ),
  )

  select-IsOrderly :
      (pick_done : Bool) (r : Runner T) (pending : List T)
      → r.pending ≡ pending
      → IsOrderly r
      → IsOrderly (select_on pick_done pending r)
  select-IsOrderly pick_done r [] p h = h
  select-IsOrderly pick_done r (obj ∷ objs) p h =
      elim (Bool-cases (r.cancelled && (is_full r || pick_done))) [
        | inl t ↦ rw t (
            subst (λ l. IsOrderly (record r { pending = []; dropped = r.dropped ++ l })) p
              (stopped-IsOrderly r h))
        | inr f ↦ elim (Bool-cases (is_full r)) [
          | inl full ↦ rw (f, full) (lost-IsOrderly r obj objs p h)
          | inr room ↦ rw (f, room) (sent-IsOrderly r obj objs p room h)
        ]
      ]

  receive-IsOrderly :
      (r : Runner T) (events : List T)
      → r.events ≡ events
      → IsOrderly r
      → IsOrderly (receive_on events r)
  receive-IsOrderly r [] p h = h
  receive-IsOrderly r (x ∷ xs) p (fits, done, (past, e, s)) = (
    (let known : suc (length xs) ≤ r.capacity = subst (λ l. length l ≤ r.capacity) p fits in
        omega arith),
    done,
    (
      past,
      e,
      subst (λ l. Shuffle l r.dropped past)
          (ap (λ l. r.received ++ l) p ∙ sym (append_assoc r.received (x ∷ []) xs)) s,
    ),
  )

  tick-IsOrderly :
      (r : Runner T) (enqueued : Resolved (List T))
      → r.closed ≡ false
      → r.pending ≡ []
      → IsOrderly r
      → IsOrderly (begin_tick enqueued r)
  tick-IsOrderly r (error x) opened idle h = h
  tick-IsOrderly r (ok objs) opened idle (fits, done, (past, e, s)) = (
    fits,
    λ t. cc (t, opened),
    (past, ap (λ l. l ++ objs) (e ∙ ap (λ l. past ++ l) idle ∙ append_nil past), s),
  )

  Step-IsOrderly : (r r' : Runner T) → Step r r' → IsOrderly r → IsOrderly r'
  Step-IsOrderly r r' (starts e) h = starts-IsOrderly r r' e h
  Step-IsOrderly r _ cancels h = (h.0, λ t. (refl, (h.1 t).1), h.2)
  Step-IsOrderly r _ (ticks enqueued begun opened live idle) h =
      tick-IsOrderly r enqueued opened idle h
  Step-IsOrderly r _ (selects pick_done) h = select-IsOrderly pick_done r r.pending refl h
  Step-IsOrderly r _ receives h = receive-IsOrderly r r.events refl h
  Step-IsOrderly r _ (closes begun gone idle) h = (h.0, λ t. (gone, idle), h.2)

  Reached-IsOrderly : (first r : Runner T) → Reached first r → IsOrderly first → IsOrderly r
  Reached-IsOrderly first _ initially h = h
  Reached-IsOrderly first r (after {r = before} reached step) h =
      Step-IsOrderly before r step (Reached-IsOrderly first before reached h)

apply_option-positive :
    (o : PollerOption) (c : Config)
    → non_positive c.buffer_size ≡ false
    → non_positive (apply_option o c).buffer_size ≡ false
apply_option-positive (with_interval d) c h = elim (Bool-cases (non_positive d)) [
  | inl t ↦ rw t h
  | inr f ↦ rw f h
]
apply_option-positive (with_buffer_size n) c h = elim (Bool-cases (non_positive n)) [
  | inl t ↦ rw t h
  | inr f ↦ rw f f
]
apply_option-positive (with_name name) c h = elim (Bool-cases (name == "")) [
  | inl t ↦ rw t h
  | inr f ↦ rw f h
]

apply_options-positive :
    (options : List PollerOption) (c : Config)
    → non_positive c.buffer_size ≡ false
    → non_positive (apply_options options c).buffer_size ≡ false
apply_options-positive [] c h = h
apply_options-positive (o ∷ options) c h =
    apply_options-positive options (apply_option o c) (apply_option-positive o c h)

module _ {T : Type 0} where
  make_runner-IsOrderly :
      (c : Config) (size : ℤ)
      → non_positive size ≡ false
      → (first : Runner T) × (make_runner c size ≡ some first)
        × (1 ≤ first.capacity)
        × IsOrderly first
  make_runner-IsOrderly c (negsuc n) h = cc h
  make_runner-IsOrderly c (pos zero) h = cc h
  make_runner-IsOrderly c (pos (suc n)) h =
      (_, refl, omega arith, (omega arith, λ t. cc t, ([], refl, both_empty)))

  -- With an enqueue function and any options, a runner is made, with room on its channel. Whatever
  -- order its ticks, its `select`s, its reader and the cancellation of its context take, the channel
  -- keeps to the capacity; it is closed only when nothing is left to be sent; and each object that a
  -- tick returned is, once, read, on the channel, given up or still to be sent, where those read and
  -- then those on the channel are in the order in which they were returned.
  pub new_runner-IsOrderly :
      (options : List PollerOption)
      → (first : Runner T) × (new_runner true options ≡ some first)
        × (1 ≤ first.capacity)
        × ((r : Runner T) → Reached first r → IsOrderly r)
  unfolding new_runner
  new_runner-IsOrderly options =
      let (first, made, room, sound) =
        make_runner-IsOrderly (apply_options options default_config)
          (apply_options options default_config).buffer_size
          (apply_options-positive options default_config refl) in
      (first, made, room, λ r reached. Reached-IsOrderly first r reached sound)
