-- ===== src/Streams/Single.antt =====
-- One active subscription at most for an instrument and timeframe (openpine/streams/manager.py).
use openpine.Streams.Manager.{
  paused, adapter_unsubscribe, stopped, SubscriptionStatus, adapter_subscribe, set_status,
  is_subscribed, set_adapter, is_active, call_adapter, pause, StreamManager, unsubscribe,
  StreamSubscription, new_subscription, find_subscribed, AdapterCall, subscribe,
}
use openpine.Base.{
  ◌&&◌, truthy, eq_iff, ◌==◌, inr, ◌∙◌, ap, sym, inl, Bool-cases, some-eq-some, subst, refl, arith,
  ◌++◌, Option, true, [], ◌∷◌, false, none, if◌then◌else◌, some, ◌≡◌, Bool, List, String,
}
use Prim.Native.String.{◌∷◌, String}
use mathlib.Core.Bool.{false≢true}
use openpine.Base.Dict.{get-put, values, Dict, get, put}

-- Two active subscriptions with the same instrument and timeframe have the same id.
abbrev pub AreSingle : Dict StreamSubscription → Type 0
AreSingle subs =
    (j k : String) (s t : StreamSubscription)
    → get subs j ≡ some s
    → get subs k ≡ some t
    → is_active s.status ≡ true
    → is_subscribed s.instrument_key s.timeframe t ≡ true
    → j ≡ k

pub data Call : Type 0 where
  -- instrument, timeframe and the new id
  open_subscription : String → String → String → Call
  stop : String → Call
  halt : String → Call
  attach : Bool → Call

unfoldable pub call : Call → StreamManager → StreamManager
unfolding subscribe unsubscribe pause
call (open_subscription instrument_key timeframe new_id) m =
    (subscribe instrument_key timeframe new_id m).1
call (stop id) m = unsubscribe id m
call (halt id) m = pause id m
call (attach b) m = set_adapter b m

unfoldable pub run : List Call → StreamManager → StreamManager
unfolding call
run [] m = m
run (c ∷ calls) m = run calls (call c m)

pub call_adapter-subscriptions :
    (c : AdapterCall) (m : StreamManager) → (call_adapter c m).subscriptions ≡ m.subscriptions
call_adapter-subscriptions c m = cases m.has_adapter
  where
    cases :
        (b : Bool)
        → (if b then record m { adapter_calls = m.adapter_calls ++ c ∷ [] } else m).subscriptions
          ≡ m.subscriptions
    cases true = refl
    cases false = refl

pub found-none :
    (instrument_key timeframe k : String) (subs : Dict StreamSubscription) (t : StreamSubscription)
    → find_subscribed instrument_key timeframe (values subs) ≡ none
    → get subs k ≡ some t
    → is_subscribed instrument_key timeframe t ≡ false
unfolding find_subscribed values get
found-none instrument_key timeframe k [] t free h = absurd (grind (arith, h))
found-none instrument_key timeframe k ((j, s) ∷ subs) t free h =
    elim (Bool-cases (is_subscribed instrument_key timeframe s)) [
      | inl there ↦ absurd (
          grind (
            arith,
            sym (
                  ap
                    (λ b.
                      if b then some s else find_subscribed instrument_key timeframe (values subs))
                    there)
                ∙ free,
          ))
      | inr other ↦
          let later =
            sym (
              ap (λ b. if b then some s else find_subscribed instrument_key timeframe (values subs))
                other)
            ∙ free in
          cases (j == k) h other (found-none instrument_key timeframe k subs t later)
    ]
  where
    cases :
        (b : Bool)
        → elim b as (λ x. Option StreamSubscription) [ true ↦ some s | false ↦ get subs k ] ≡ some t
        → is_subscribed instrument_key timeframe s ≡ false
        → (get subs k ≡ some t → is_subscribed instrument_key timeframe t ≡ false)
        → is_subscribed instrument_key timeframe t ≡ false
    cases true e other later =
        subst (λ x. is_subscribed instrument_key timeframe x ≡ false) (some-eq-some e) other
    cases false e other later = later e

-- a subscription that is not active may be put in place of any
put_inactive-AreSingle :
    (subs : Dict StreamSubscription) (id : String) (s : StreamSubscription)
    → is_active s.status ≡ false
    → AreSingle subs
    → AreSingle (put subs id s)
put_inactive-AreSingle subs id s off h j k x y at_j at_k live match =
    cases (id == j) (id == k) (sym (get-put subs id j s) ∙ at_j) (sym (get-put subs id k s) ∙ at_k)
  where
    cases :
        (b c : Bool)
        → elim b as (λ o. Option StreamSubscription) [ true ↦ some s | false ↦ get subs j ] ≡ some x
        → elim c as (λ o. Option StreamSubscription) [ true ↦ some s | false ↦ get subs k ] ≡ some y
        → j ≡ k
    cases true c e f =
        absurd (false≢true (sym off ∙ ap (λ z. is_active z.status) (some-eq-some e) ∙ live))
    cases false true e f = absurd (
        false≢true
          (sym off ∙ ap (λ z. is_active z.status) (some-eq-some f) ∙ ground (arith, match)))
    cases false false e f = h j k x y e f live match

put_new-AreSingle :
    (subs : Dict StreamSubscription) (instrument_key timeframe id : String)
    → find_subscribed instrument_key timeframe (values subs) ≡ none
    → AreSingle subs
    → AreSingle (put subs id (new_subscription instrument_key timeframe id))
unfolding new_subscription
put_new-AreSingle subs instrument_key timeframe id free h j k x y at_j at_k live match =
    cases (id == j) refl (id == k) refl (sym (get-put subs id j added) ∙ at_j)
      (sym (get-put subs id k added) ∙ at_k)
  where
    added : StreamSubscription
    added = new_subscription instrument_key timeframe id

    mirrored :
        is_subscribed x.instrument_key x.timeframe added ≡ true
        → is_subscribed instrument_key timeframe x ≡ true
    mirrored same = ground (
      arith,
      live,
      same,
      eq_iff instrument_key x.instrument_key,
      eq_iff timeframe x.timeframe,
      eq_iff x.instrument_key instrument_key,
      eq_iff x.timeframe timeframe,
    )

    cases :
        (b : Bool)
        → (id == j) ≡ b
        → (c : Bool) → (id == k) ≡ c
        → elim b as (λ o. Option StreamSubscription) [ true ↦ some added | false ↦ get subs j ]
          ≡ some x
        → elim c as (λ o. Option StreamSubscription) [ true ↦ some added | false ↦ get subs k ]
          ≡ some y
        → j ≡ k
    cases true e true f new_j new_k = sym ((eq_iff id j).0 e) ∙ (eq_iff id k).0 f
    cases true e false f new_j old_k =
        let same =
          subst (λ z. is_subscribed z.instrument_key z.timeframe y ≡ true)
            (sym (some-eq-some new_j)) match in
        absurd (false≢true (sym (found-none instrument_key timeframe k subs y free old_k) ∙ same))
    cases false e true f old_j new_k =
        let same =
          subst (λ z. is_subscribed x.instrument_key x.timeframe z ≡ true)
            (sym (some-eq-some new_k)) match in
        absurd (
          false≢true
            (sym (found-none instrument_key timeframe j subs x free old_j) ∙ mirrored same))
    cases false e false f old_j old_k = h j k x y old_j old_k live match

set_status-AreSingle :
    (status : SubscriptionStatus) (id : String) (m : StreamManager)
    → is_active status ≡ false
    → AreSingle m.subscriptions
    → AreSingle (set_status status id m).subscriptions
unfolding set_status
set_status-AreSingle status id m off h = cases (get m.subscriptions id)
  where
    cases :
        (o : Option StreamSubscription)
        → AreSingle
            (elim o as (λ x. StreamManager) [
              | none ↦ m
              | some s ↦ record m {
                subscriptions = put m.subscriptions id (record s { status = status });
              }
            ]).subscriptions
    cases none = h
    cases (some s) = put_inactive-AreSingle m.subscriptions id (record s { status = status }) off h

call-AreSingle :
    (c : Call) (m : StreamManager) → AreSingle m.subscriptions → AreSingle (call c m).subscriptions
unfolding call subscribe unsubscribe pause
call-AreSingle (open_subscription instrument_key timeframe new_id) m h =
    cases (find_subscribed instrument_key timeframe (values m.subscriptions)) refl
  where
    added : StreamSubscription
    added = new_subscription instrument_key timeframe new_id

    cases :
        (o : Option StreamSubscription)
        → find_subscribed instrument_key timeframe (values m.subscriptions) ≡ o
        → AreSingle
            (elim o as (λ x. StreamSubscription × StreamManager) [
              | some s ↦ (s, m)
              | none ↦ (
                added,
                call_adapter
                    (adapter_subscribe instrument_key timeframe)
                    (record m { subscriptions = put m.subscriptions new_id added }),
              )
            ]).1.subscriptions
    cases (some s) e = h
    cases none e =
        subst AreSingle
          (sym (
            call_adapter-subscriptions (adapter_subscribe instrument_key timeframe)
              (record m { subscriptions = put m.subscriptions new_id added })))
          (put_new-AreSingle m.subscriptions instrument_key timeframe new_id e h)
call-AreSingle (stop id) m h =
    cases (get m.subscriptions id) (set_status-AreSingle stopped id m refl h)
  where
    cases :
        (o : Option StreamSubscription)
        → AreSingle (set_status stopped id m).subscriptions
        → AreSingle
            (elim o as (λ x. StreamManager) [
              | none ↦ set_status stopped id m
              | some s ↦
                  if truthy s.instrument_key && truthy s.timeframe
                  then call_adapter
                      (adapter_unsubscribe s.instrument_key s.timeframe)
                      (set_status stopped id m)
                  else set_status stopped id m
            ]).subscriptions
    cases none after = after
    cases (some s) after = either (truthy s.instrument_key && truthy s.timeframe)
      where
        either :
            (b : Bool)
            → AreSingle
                (if b
                  then call_adapter
                      (adapter_unsubscribe s.instrument_key s.timeframe)
                      (set_status stopped id m)
                  else set_status stopped id m).subscriptions
        either true =
            subst AreSingle
              (sym (
                call_adapter-subscriptions (adapter_unsubscribe s.instrument_key s.timeframe)
                  (set_status stopped id m)))
              after
        either false = after
call-AreSingle (halt id) m h = set_status-AreSingle paused id m refl h
call-AreSingle (attach b) m h = h

-- From a manager with at most one active subscription for each instrument and timeframe, any calls of subscribe,
-- unsubscribe, pause and set_adapter lead to such a manager again.
pub run-AreSingle :
    (calls : List Call) (m : StreamManager)
    → AreSingle m.subscriptions
    → AreSingle (run calls m).subscriptions
unfolding run
run-AreSingle [] m h = h
run-AreSingle (c ∷ calls) m h = run-AreSingle calls (call c m) (call-AreSingle c m h)
