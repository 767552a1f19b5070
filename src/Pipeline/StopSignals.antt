-- ===== src/Pipeline/StopSignals.antt =====
-- pipeline/control-signals.ts: stop signals and their listeners. A listener is a number; a call of
-- a listener is listed in the result. `listeners` maps a run to a `Set` object, which the
-- unsubscribe functions share: the map holds the number of the object, and `sets` its members.
pub mod Delivery
use urateam.Prelude.{
  ℕ, zero, suc, ◌+◌, String, Bool, true, false, not, Option, none, some, List, [], ◌∷◌, ◌++◌, ◌==◌,
  if◌then◌else◌, any, filter, length, get_elem?, set, Assoc, lookup, insert, without,
}

pub data StopMode : Type 0 where
  cancel graceful : StopMode

pub record Signals : Type 0 where
  pub signals : Assoc StopMode
  pub listeners : Assoc ℕ
  pub sets : List (List ℕ)

abbrev pub empty : Signals
empty = record { signals = []; listeners = []; sets = [] }

abbrev pub members : Option (List ℕ) → List ℕ
members none = []
members (some ls) = ls

abbrev members_at : List (List ℕ) → Option ℕ → List ℕ
members_at sets none = []
members_at sets (some object) = members (get_elem? sets object)

-- The listeners of a run.
unfoldable pub subscribed : Signals → String → List ℕ
subscribed s run_id = members_at s.sets (lookup run_id s.listeners)

-- The listeners that a new signal calls; `"graceful"` is polled, and calls none.
abbrev pub notified : StopMode → Signals → String → List ℕ
notified cancel s run_id = subscribed s run_id
notified graceful s run_id = []

-- The body of `requestStop`, by the signal that is set.
unfoldable pub request_from :
    Option StopMode → Signals → String → StopMode → Signals × StopMode × List ℕ
request_from (some cancel) s run_id mode = (s, cancel, [])
request_from _ s run_id mode =
    (record s { signals = insert run_id mode s.signals }, mode, notified mode s run_id)

-- The new state, the mode in effect, and the listeners that are called, in order.
unfoldable pub request_stop : Signals → String → StopMode → Signals × StopMode × List ℕ
unfolding request_from
request_stop s run_id mode = request_from (lookup run_id s.signals) s run_id mode

unfoldable pub get_stop_signal : Signals → String → Option StopMode
get_stop_signal s run_id = lookup run_id s.signals

unfoldable clear_stop_signal : Signals → String → Signals
clear_stop_signal s run_id = record s {
  signals = without run_id s.signals;
  listeners = without run_id s.listeners;
}

unfoldable clear_all_signals : Signals → Signals
clear_all_signals s = record s { signals = []; listeners = [] }

-- `set.add(listener)`
unfoldable pub add : ℕ → List ℕ → List ℕ
add listener ls = if any (λ l. l == listener) ls then ls else ls ++ listener ∷ []

-- The `Set` object of the run, made anew where there is none, with the listener added.
unfoldable pub subscribe : Option ℕ → Signals → String → ℕ → Signals × ℕ
unfolding add
subscribe (some object) s run_id listener = (
  record s { sets = set s.sets object (add listener (members (get_elem? s.sets object))) },
  object,
)
subscribe none s run_id listener = (
  record s {
    listeners = insert run_id (length s.sets) s.listeners;
    sets = s.sets ++ (listener ∷ []) ∷ [];
  },
  length s.sets,
)

-- The listener called at once, where a cancel is pending.
abbrev pub immediate : Option StopMode → ℕ → List ℕ
immediate (some cancel) listener = listener ∷ []
immediate _ listener = []

-- The new state, the listeners that are called, and the object that the unsubscribe function holds.
unfoldable pub on_stop : Signals → String → ℕ → Signals × List ℕ × ℕ
unfolding subscribe
on_stop s run_id listener =
    let (s', object) = subscribe (lookup run_id s.listeners) s run_id listener in
    (s', immediate (lookup run_id s.signals) listener, object)

-- The function that `onStop` returns.
unfoldable unsubscribe : Signals → ℕ → ℕ → Signals
unsubscribe s object listener = record s {
  sets = set s.sets object (filter (λ l. not (l == listener)) (members (get_elem? s.sets object)));
}
