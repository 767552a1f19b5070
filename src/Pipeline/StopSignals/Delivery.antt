-- ===== src/Pipeline/StopSignals/Delivery.antt =====
-- The requests and the listeners of pipeline/control-signals.ts over sequences of calls.
use urateam.Prelude.{
  ℕ, suc, ◌+◌, ◌<◌, ◌≡◌, refl, sym, ap, ◌∙◌, ◌≢◌, String, Bool, true, false, Option, none, some,
  List, [], ◌∷◌, ◌++◌, arith, ◌==◌, if◌then◌else◌, any, length, get_elem?, lookup, insert, str_eq,
  lookup-insert, lookup-insert_self, some-eq, eq_iff, get_elem?-append, get_elem?-set_self,
  length-set, length-append,
}
use urateam.Pipeline.StopSignals.{
  StopMode, cancel, graceful, Signals, members, subscribed, notified, request_from, request_stop,
  get_stop_signal, add, subscribe, immediate, on_stop,
}

-- The stronger of the signal that is set and the one that is asked for.
abbrev pub stronger : Option StopMode → StopMode → StopMode
stronger (some cancel) mode = cancel
stronger _ mode = mode

-- A request sets the stronger of the two modes for its run and returns it; the signals of the other
-- runs, and all listeners, stay as they are.
request_stop_lem :
    (s : Signals) (run_id other : String) (mode : StopMode)
    → let (s', effective, called) = request_stop s run_id mode in
      (effective ≡ stronger (get_stop_signal s run_id) mode)
      × (get_stop_signal s' other
          ≡ (if str_eq run_id other then some effective else get_stop_signal s other))
      × (subscribed s' other ≡ subscribed s other)
unfolding request_stop get_stop_signal subscribed
request_stop_lem s run_id other mode =
    ground (arith, lookup-insert run_id other mode s.signals, eq_iff run_id other)

-- The calls on one run, in the order in which they are made.
pub data Call : Type 0 where
  request : StopMode → Call
  subscribes : ℕ → Call

-- The listeners that are called over a sequence of calls, in order.
unfoldable pub deliveries : String → Signals → List Call → List ℕ
deliveries run_id s [] = []
deliveries run_id s (request mode ∷ calls) =
    let (s', effective, called) = request_stop s run_id mode in called ++ deliveries run_id s' calls
deliveries run_id s (subscribes l ∷ calls) =
    let (s', called, object) = on_stop s run_id l in called ++ deliveries run_id s' calls

abbrev pub count : ℕ → List ℕ → ℕ
count l [] = 0
count l (x ∷ xs) = let rest = count l xs in if x == l then suc rest else rest

abbrev pub subscriptions : ℕ → List Call → ℕ
subscriptions l [] = 0
subscriptions l (request mode ∷ calls) = subscriptions l calls
subscriptions l (subscribes x ∷ calls) =
    let rest = subscriptions l calls in if x == l then suc rest else rest

abbrev pub cancels : List Call → Bool
cancels [] = false
cancels (request cancel ∷ calls) = true
cancels (_ ∷ calls) = cancels calls

count-append : (l : ℕ) (xs ys : List ℕ) → count l (xs ++ ys) ≡ count l xs + count l ys
count-append l [] ys = omega arith
count-append l (x ∷ xs) ys = ground (arith, count-append l xs ys)

any-count : (l : ℕ) (xs : List ℕ) → any (λ x. x == l) xs ≡ true → 0 < count l xs
any-count l [] h = cc
any-count l (x ∷ xs) h = ground (arith, any-count l xs)

count-add_ne : (l x : ℕ) (xs : List ℕ) → x ≢ l → count l (add x xs) ≡ count l xs
unfolding add
count-add_ne l x xs n = ground (arith, count-append l xs (x ∷ []))

count-add_self : (l : ℕ) (xs : List ℕ) → count l xs ≡ 0 → count l (add l xs) ≡ 1
unfolding add
count-add_self l xs h = ground (arith, any-count l xs, count-append l xs (l ∷ []))

count-add :
    (l x : ℕ) (xs : List ℕ) (calls : List Call)
    → count l xs + subscriptions l (subscribes x ∷ calls) ≡ 1
    → count l (add x xs) + subscriptions l calls ≡ 1
unfolding add
count-add l x xs calls h =
    ground (arith, any-count l xs, any-count x xs, count-append l xs (x ∷ []))

-- The object of the run's listeners exists.
abbrev pub Placed : Signals → String → Type 0
Placed s run_id = (object : ℕ) → lookup run_id s.listeners ≡ some object → object < length s.sets

module _ (run_id : String) where
  -- The listeners of the run after a subscription, by the object that the run has.
  subscribe-members :
      (s : Signals) (l : ℕ) (o : Option ℕ)
      → lookup run_id s.listeners ≡ o
      → ((object : ℕ) → o ≡ some object → object < length s.sets)
      → let s' = (subscribe o s run_id l).0 in
        (subscribed s' run_id ≡ add l (subscribed s run_id)) × Placed s' run_id
  unfolding subscribe subscribed add
  subscribe-members s l none e p =
      let new = lookup-insert_self run_id (length s.sets) s.listeners in
      (
        rw (e, new, get_elem?-append s.sets (l ∷ [])) refl,
        λ object h. omega (arith, length-append s.sets ((l ∷ []) ∷ []), some-eq (sym new ∙ h)),
      )
  subscribe-members s l (some o) e p =
      let lt = p o refl in
      let v = add l (members (get_elem? s.sets o)) in
      (
        rw (e, get_elem?-set_self s.sets o v lt) refl,
        λ object h. omega (arith, lt, length-set s.sets o v, some-eq (sym e ∙ h)),
      )

  subscribe-subscribed :
      (s : Signals) (l : ℕ)
      → Placed s run_id
      → (subscribed (on_stop s run_id l).0 run_id ≡ add l (subscribed s run_id))
        × Placed (on_stop s run_id l).0 run_id
  unfolding on_stop
  subscribe-subscribed s l p = subscribe-members s l (lookup run_id s.listeners) refl p

  on_stop-signals : (s : Signals) (l : ℕ) → (on_stop s run_id l).0.signals ≡ s.signals
  unfolding on_stop
  on_stop-signals s l = ground arith

  -- The signal after a cancel and after a request that finds none.
  request-pending :
      (s : Signals) (mode : StopMode)
      → get_stop_signal s run_id ≡ some cancel
      → request_stop s run_id mode ≡ (s, cancel, [])
  unfolding request_stop get_stop_signal
  request-pending s mode e = rw e refl

  request_from-open :
      (o : Option StopMode) (s : Signals) (mode : StopMode)
      → o ≢ some cancel
      → request_from o s run_id mode
        ≡ (record s { signals = insert run_id mode s.signals }, mode, notified mode s run_id)
  unfolding request_from
  request_from-open none s mode n = refl
  request_from-open (some graceful) s mode n = refl
  request_from-open (some cancel) s mode n = absurd (n refl)

  -- The state after a request that finds no cancel.
  abbrev requested : Signals → StopMode → Signals
  requested s mode = record s { signals = insert run_id mode s.signals }

  request-open :
      (s : Signals) (mode : StopMode)
      → get_stop_signal s run_id ≢ some cancel
      → request_stop s run_id mode ≡ (requested s mode, mode, notified mode s run_id)
  unfolding request_stop get_stop_signal
  request-open s mode n = request_from-open (lookup run_id s.signals) s mode n

  signal_after-request :
      (s : Signals) (mode : StopMode) → get_stop_signal (requested s mode) run_id ≡ some mode
  unfolding get_stop_signal
  signal_after-request s mode = lookup-insert_self run_id mode s.signals

  subscribed-requested :
      (s : Signals) (mode : StopMode) → subscribed (requested s mode) run_id ≡ subscribed s run_id
  unfolding subscribed
  subscribed-requested s mode = refl

  immediate-open : (o : Option StopMode) (l : ℕ) → o ≢ some cancel → immediate o l ≡ []
  immediate-open none l n = refl
  immediate-open (some graceful) l n = refl
  immediate-open (some cancel) l n = absurd (n refl)

  on_stop-pending :
      (s : Signals) (l : ℕ)
      → get_stop_signal s run_id ≡ some cancel
      → (on_stop s run_id l).1 ≡ l ∷ []
  unfolding on_stop get_stop_signal
  on_stop-pending s l e = rw e refl

  on_stop-open :
      (s : Signals) (l : ℕ) → get_stop_signal s run_id ≢ some cancel → (on_stop s run_id l).1 ≡ []
  unfolding on_stop get_stop_signal
  on_stop-open s l n = immediate-open (lookup run_id s.signals) l n

  signal_after-subscribe :
      (s : Signals) (l : ℕ)
      → get_stop_signal (on_stop s run_id l).0 run_id ≡ get_stop_signal s run_id
  unfolding get_stop_signal
  signal_after-subscribe s l = rw (on_stop-signals s l) refl

  -- Once a cancel is pending, each subscription is called at once, and nothing else is.
  deliveries-pending :
      (s : Signals) (l : ℕ) (calls : List Call)
      → get_stop_signal s run_id ≡ some cancel
      → count l (deliveries run_id s calls) ≡ subscriptions l calls
  unfolding deliveries
  deliveries-pending s l [] e = refl
  deliveries-pending s l (request mode ∷ calls) e =
      rw (request-pending s mode e) (deliveries-pending s l calls e)
  deliveries-pending s l (subscribes x ∷ calls) e =
      let rest =
        deliveries-pending (on_stop s run_id x).0 l calls (signal_after-subscribe s x ∙ e) in
      rw (on_stop-pending s x e, rest) refl

  -- A listener that is subscribed once, before or after, is called once where a cancel is asked for,
  -- and never where none is.
  pub deliveries_once :
      (s : Signals) (l : ℕ) (calls : List Call)
      → Placed s run_id
      → get_stop_signal s run_id ≢ some cancel
      → count l (subscribed s run_id) + subscriptions l calls ≡ 1
      → count l (deliveries run_id s calls) ≡ (if cancels calls then 1 else 0)
  unfolding deliveries
  deliveries_once s l [] p n c = refl
  deliveries_once s l (request cancel ∷ calls) p n c =
      let rest = deliveries-pending (requested s cancel) l calls (signal_after-request s cancel) in
      let split =
        count-append l (subscribed s run_id) (deliveries run_id (requested s cancel) calls) in
      rw (request-open s cancel n, split, rest) c
  deliveries_once s l (request graceful ∷ calls) p n c =
      let now = signal_after-request s graceful in
      let c' =
        ap (λ ls. count l ls + subscriptions l calls) (subscribed-requested s graceful) ∙ c in
      rw (request-open s graceful n)
        (deliveries_once (requested s graceful) l calls p (λ e. cc (sym now ∙ e)) c')
  deliveries_once s l (subscribes x ∷ calls) p n c =
      let (now, p') = subscribe-subscribed s x p in
      let same = signal_after-subscribe s x in
      let c' =
        ap (λ ls. count l ls + subscriptions l calls) now
        ∙ count-add l x (subscribed s run_id) calls c in
      rw (on_stop-open s x n)
        (deliveries_once (on_stop s run_id x).0 l calls p' (λ e. n (sym same ∙ e)) c')
