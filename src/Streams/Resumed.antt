-- ===== src/Streams/Resumed.antt =====
-- A subscription that is resumed after another has taken its place (openpine/streams/manager.py).
use openpine.Streams.Single.{call_adapter-subscriptions}
use openpine.Base.{
  refl, sym, Option, subst, eq_iff, arith, true, ◌∙◌, ap, false, ◌==◌, none, some, ◌≡◌, String,
}
use Prim.Native.String.{String}
use openpine.Streams.Manager.{
  active, adapter_subscribe, call_adapter, SubscriptionStatus, paused, new_subscription, set_status,
  subscribe, resume, pause, find_subscribed, StreamSubscription, StreamManager,
}
use openpine.Base.Dict.{Dict, get-put_self, get-put, values, get, put}

set_status-found :
    (status : SubscriptionStatus) (id : String) (m : StreamManager) (s : StreamSubscription)
    → get m.subscriptions id ≡ some s
    → (set_status status id m).subscriptions ≡ put m.subscriptions id (record s { status = status })
unfolding set_status
set_status-found status id m s found =
    ap
      (λ o.
        (elim o as (λ x. StreamManager) [
          | none ↦ m
          | some t ↦ record m {
            subscriptions = put m.subscriptions id (record t { status = status });
          }
        ]).subscriptions)
      found

subscribe-new :
    (instrument_key timeframe new_id : String) (m : StreamManager)
    → find_subscribed instrument_key timeframe (values m.subscriptions) ≡ none
    → (subscribe instrument_key timeframe new_id m).1.subscriptions
      ≡ put m.subscriptions new_id (new_subscription instrument_key timeframe new_id)
unfolding subscribe
subscribe-new instrument_key timeframe new_id m alone =
    ap
      (λ o.
        (elim o as (λ x. StreamSubscription × StreamManager) [
          | some s ↦ (s, m)
          | none ↦ (
            added,
            call_adapter (adapter_subscribe instrument_key timeframe)
                (record m { subscriptions = put m.subscriptions new_id added }),
          )
        ]).1.subscriptions)
      alone
    ∙ call_adapter-subscriptions (adapter_subscribe instrument_key timeframe)
        (record m { subscriptions = put m.subscriptions new_id added })
  where
    added : StreamSubscription
    added = new_subscription instrument_key timeframe new_id

-- an active subscription of an id, to an instrument and timeframe
abbrev pub IsActiveFor : String → String → String → Dict StreamSubscription → Type 0
IsActiveFor id instrument_key timeframe subs =
    (s : StreamSubscription) × (get subs id ≡ some s)
    × (s.status ≡ active)
    × (s.instrument_key ≡ instrument_key)
    × (s.timeframe ≡ timeframe)

-- When a subscription is paused, so that none of its instrument and timeframe is active any more, the same is
-- subscribed to again, under a new id, and then the first is resumed, both are active for that instrument and
-- timeframe.
pub resume-subscribe :
    (m : StreamManager) (id new_id : String) (s : StreamSubscription)
    → get m.subscriptions id ≡ some s
    → find_subscribed s.instrument_key s.timeframe (values (pause id m).subscriptions) ≡ none
    → (id == new_id) ≡ false
    → let m' = resume id (subscribe s.instrument_key s.timeframe new_id (pause id m)).1 in
      IsActiveFor id s.instrument_key s.timeframe m'.subscriptions
      × IsActiveFor new_id s.instrument_key s.timeframe m'.subscriptions
unfolding pause resume new_subscription
resume-subscribe m id new_id s found alone differs =
    let paused_s : StreamSubscription = record s { status = paused } in
    let added = new_subscription s.instrument_key s.timeframe new_id in
    let m₂ = (subscribe s.instrument_key s.timeframe new_id (set_status paused id m)).1 in
    let subs₁ = put m.subscriptions id paused_s in
    let subs₂ = put subs₁ new_id added in
    let after₂ =
      subscribe-new s.instrument_key s.timeframe new_id (set_status paused id m) alone
      ∙ ap (λ d. put d new_id added) (set_status-found paused id m s found) in
    let found₂ =
      ap (λ d. get d id) after₂
      ∙ get-put subs₁ new_id id added
      ∙ ground (
        arith,
        differs,
        eq_iff id new_id,
        eq_iff new_id id,
        get-put_self m.subscriptions id paused_s,
      ) in
    let after₃ =
      set_status-found active id m₂ paused_s found₂
      ∙ ap (λ d. put d id (record s { status = active })) after₂ in
    let first = get-put_self subs₂ id (record s { status = active }) in
    let second =
      get-put subs₂ id new_id (record s { status = active })
      ∙ ap
          (λ b. elim b as (λ x. Option StreamSubscription) [
            | true ↦ some (record s { status = active })
            | false ↦ get subs₂ new_id
          ])
          differs
      ∙ get-put_self subs₁ new_id added in
    subst
      (λ subs.
        IsActiveFor id s.instrument_key s.timeframe subs
        × IsActiveFor new_id s.instrument_key s.timeframe subs)
      (sym after₃)
      ((record s { status = active }, first, refl, refl, refl), (added, second, refl, refl, refl))
