-- ===== src/Poller.antt =====
-- The runner that polls: internal/util/poller/runner.go. Its goroutine, the cancellation of its
-- context and the reader of its channel take turns, so the runner is a step relation. `select`
-- picks any case that is ready: the pick is an argument. The timer of wait.UntilWithContext is left
-- out: it runs a tick when the context is not cancelled and no other tick runs. An interval is
-- counted in seconds. The objects that ticks returned, that were read and that were given up are
-- written down beside the channel.
pub mod Delivery
use kcm.Prelude.{
  ℕ, Bool, true, false, not, ◌&&◌, ◌||◌, List, [], ◌∷◌, ◌++◌, Option, none, some, String, ◌≡◌,
  if◌then◌else◌, ◌==◌, string_eq, length, ltb, ℤ, pos, negsuc, non_positive, Resolved, ok, error,
}

pub record Config : Type 0 where
  pub name : String
  pub interval : ℤ
  pub buffer_size : ℤ

pub data PollerOption : Type 0 where
  with_interval : ℤ → PollerOption
  with_buffer_size : ℤ → PollerOption
  with_name : String → PollerOption

abbrev pub default_config : Config
default_config = record { name = "poller"; interval = pos 60; buffer_size = pos 64 }

abbrev pub apply_option : PollerOption → Config → Config
apply_option (with_interval d) c = if not (non_positive d) then record c { interval = d } else c
apply_option (with_buffer_size n) c =
    if not (non_positive n) then record c { buffer_size = n } else c
apply_option (with_name name) c = if not (name == "") then record c { name = name } else c

abbrev pub apply_options : List PollerOption → Config → Config
apply_options [] c = c
apply_options (o ∷ options) c = apply_options options (apply_option o c)

-- The channel's capacity and events, the objects of the current tick that are still to be sent,
-- and whether the context is cancelled.
pub record Runner (T : Type 0) : Type 0 where
  pub name : String
  pub interval : ℤ
  pub capacity : ℕ
  pub events : List T
  pub closed : Bool
  pub started : Bool
  pub cancelled : Bool
  pub pending : List T
  pub offered : List T
  pub received : List T
  pub dropped : List T

-- make(chan, n) panics on a negative size.
abbrev pub make_runner : {T : Type 0} → Config → ℤ → Option (Runner T)
make_runner c (negsuc n) = none
make_runner c (pos n) = some (record {
  name = c.name;
  interval = c.interval;
  capacity = n;
  events = [];
  closed = false;
  started = false;
  cancelled = false;
  pending = [];
  offered = [];
  received = [];
  dropped = [];
})

-- NewRunner panics without an enqueue function.
unfoldable pub new_runner :
    {T : Type 0} → (has_enqueue : Bool) → List PollerOption → Option (Runner T)
new_runner false options = none
new_runner true options =
    make_runner (apply_options options default_config)
      (apply_options options default_config).buffer_size

module _ {T : Type 0} where
  abbrev pub start : Runner T → Resolved (Runner T)
  start r =
      if r.started
      then error "poller: runner cannot be started twice"
      else ok (record r { started = true })

  -- A tick begins with what the enqueue function returned.
  abbrev pub begin_tick : Resolved (List T) → Runner T → Runner T
  begin_tick (error e) r = r
  begin_tick (ok objs) r = record r { pending = objs; offered = r.offered ++ objs }

  abbrev pub is_full : Runner T → Bool
  is_full r = not (ltb (length r.events) r.capacity)

  -- `select` for the next object of the tick.
  abbrev pub select_on : (pick_done : Bool) → List T → Runner T → Runner T
  select_on pick_done [] r = r
  select_on pick_done (obj ∷ objs) r =
      let stopped = record r { pending = []; dropped = r.dropped ++ (obj ∷ objs) } in
      let lost = record r { pending = objs; dropped = r.dropped ++ (obj ∷ []) } in
      let sent = record r { pending = objs; events = r.events ++ (obj ∷ []) } in
      if r.cancelled && (is_full r || pick_done) then stopped else if is_full r then lost else sent

  abbrev pub select_next : (pick_done : Bool) → Runner T → Runner T
  select_next pick_done r = select_on pick_done r.pending r

  -- The reader takes an event off the channel.
  abbrev pub receive_on : List T → Runner T → Runner T
  receive_on [] r = r
  receive_on (e ∷ events) r = record r { events = events; received = r.received ++ (e ∷ []) }

  abbrev pub receive : Runner T → Runner T
  receive r = receive_on r.events r

  pub data Step (r : Runner T) : Runner T → Type 0 where
    starts : {r' : Runner T} → start r ≡ ok r' → Step r r'
    cancels : Step r (record r { cancelled = true })
    ticks :
        (enqueued : Resolved (List T))
        → r.started ≡ true
        → r.closed ≡ false
        → r.cancelled ≡ false
        → r.pending ≡ []
        → Step r (begin_tick enqueued r)
    selects : (pick_done : Bool) → Step r (select_next pick_done r)
    receives : Step r (receive r)
    closes :
        r.started ≡ true → r.cancelled ≡ true → r.pending ≡ [] → Step r (record r { closed = true })

  pub data Reached (first : Runner T) : Runner T → Type 0 where
    initially : Reached first first
    after : {r r' : Runner T} → Reached first r → Step r r' → Reached first r'
