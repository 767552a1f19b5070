-- ===== src/Tests/IssueControl.antt =====
-- The router and the stop signals of packages/core/src/pipeline, run on small inputs.
use urateam.Prelude.{
  ℕ, ◌≡◌, ◌≢◌, refl, sym, ◌∙◌, inl, ◌↔◌, ◌+◌, none, some, List, [], ◌∷◌, if◌then◌else◌, Assoc,
  lookup, insert, lookup-nil, to_lower, includes,
}
use urateam.Pipeline.Router.{own, inherited, resolve_pipeline, by_priority, first_label, read}
use urateam.Pipeline.Router.Priority.{
  IsFirst, candidates, resolve_pipeline_iff, resolve_pipeline-inherited,
}
use urateam.Pipeline.StopSignals.{
  cancel, graceful, empty, subscribed, request_stop, get_stop_signal, on_stop, subscribe,
  request_from,
}
use urateam.Pipeline.StopSignals.Delivery.{
  Call, request, subscribes, deliveries, count, subscriptions, cancels, Placed, deliveries_once,
}

-- Two pipelines, by label.
abbrev configs : Assoc ℕ
configs = ("bug", 1) ∷ ("quick-fix", 2) ∷ []

by_priority_first :
    resolve_pipeline ("Bug" ∷ "quick-fix" ∷ []) configs
    ≡ some (record { key = "quick-fix"; config = own 2 })
unfolding resolve_pipeline by_priority first_label read lookup to_lower includes
by_priority_first = refl

resolve_pipeline_iff_example :
    (resolve_pipeline ("Bug" ∷ "quick-fix" ∷ []) configs
      ≡ some (record { key = "quick-fix"; config = own 2 }))
    ↔ IsFirst configs
        (candidates ("Bug" ∷ "quick-fix" ∷ []))
        (record { key = "quick-fix"; config = own 2 })
resolve_pipeline_iff_example =
    resolve_pipeline_iff configs ("Bug" ∷ "quick-fix" ∷ [])
      (record { key = "quick-fix"; config = own 2 })

lowered : to_lower "Constructor" ≡ "constructor"
unfolding to_lower
lowered = refl

unset : lookup (to_lower "Constructor") configs ≡ none
unfolding to_lower lookup
unset = refl

resolve_pipeline-inherited_example :
    resolve_pipeline ("Constructor" ∷ []) configs
    ≡ some (record { key = to_lower "Constructor"; config = inherited })
resolve_pipeline-inherited_example =
    resolve_pipeline-inherited configs "Constructor" (inl lowered) unset

-- A graceful stop, a subscription, and two cancels: the listener is called by the first cancel.
abbrev calls : List Call
calls = request graceful ∷ subscribes 4 ∷ request cancel ∷ request cancel ∷ []

called_once : deliveries "run-1" empty calls ≡ 4 ∷ []
unfolding deliveries request_stop request_from get_stop_signal on_stop subscribe subscribed lookup
    insert
called_once = refl

empty-Placed : Placed empty "run-1"
empty-Placed object found = cc (sym (lookup-nil "run-1") ∙ found)

no_signal : get_stop_signal empty "run-1" ≢ some cancel
unfolding get_stop_signal
no_signal found = cc (sym (lookup-nil "run-1") ∙ found)

one_subscription : count 4 (subscribed empty "run-1") + subscriptions 4 calls ≡ 1
unfolding subscribed lookup
one_subscription = refl

deliveries_once_example :
    count 4 (deliveries "run-1" empty calls) ≡ (if cancels calls then 1 else 0)
deliveries_once_example =
    deliveries_once "run-1" empty 4 calls empty-Placed no_signal one_subscription
