-- ===== src/Streams/Manager.antt =====
-- `MarketDataStreamManager` (openpine/streams/manager.py). A serialized instrument or timeframe is its text. The
-- new ids are arguments, and the calls of the adapter, which run as tasks of their own, are recorded.
use openpine.Base.Dict.{put, get, values, Dict}
use openpine.Base.{
  truthy, [], some, ◌∷◌, ◌==◌, false, none, ◌++◌, Option, ◌&&◌, true, if◌then◌else◌, List, Bool,
  String,
}

pub data SubscriptionStatus : Type 0 where
  active paused stopped : SubscriptionStatus

pub record StreamSubscription : Type 0 where
  pub subscription_id : String
  pub instrument_key : String
  pub timeframe : String
  pub status : SubscriptionStatus
  pub provider : String

-- a call of `LiveDataFeedAdapter`, with instrument and timeframe
pub data AdapterCall : Type 0 where
  adapter_subscribe adapter_unsubscribe : String → String → AdapterCall

-- `has_adapter`: an adapter is set and an event loop runs, so that calls of it become tasks
pub record StreamManager : Type 0 where
  pub subscriptions : Dict StreamSubscription
  pub has_adapter : Bool
  pub adapter_calls : List AdapterCall

abbrev pub is_active : SubscriptionStatus → Bool
is_active active = true
is_active _ = false

-- `StreamSubscription.create`
unfoldable pub new_subscription : String → String → String → StreamSubscription
new_subscription instrument_key timeframe subscription_id = record {
  subscription_id = subscription_id;
  instrument_key = instrument_key;
  timeframe = timeframe;
  status = active;
  provider = "marketdata-provider";
}

-- the test of the loop of `subscribe`
abbrev pub is_subscribed : String → String → StreamSubscription → Bool
is_subscribed instrument_key timeframe s =
    is_active s.status && (s.instrument_key == instrument_key && s.timeframe == timeframe)

-- the loop of `subscribe`
unfoldable pub find_subscribed :
    String → String → List StreamSubscription → Option StreamSubscription
find_subscribed instrument_key timeframe [] = none
find_subscribed instrument_key timeframe (s ∷ subscriptions) =
    if is_subscribed instrument_key timeframe s
    then some s
    else find_subscribed instrument_key timeframe subscriptions

abbrev pub call_adapter : AdapterCall → StreamManager → StreamManager
call_adapter c m =
    if m.has_adapter then record m { adapter_calls = m.adapter_calls ++ c ∷ [] } else m

unfoldable pub subscribe :
    String → String → String → StreamManager → StreamSubscription × StreamManager
unfolding find_subscribed values put new_subscription
subscribe instrument_key timeframe new_id m =
    elim (find_subscribed instrument_key timeframe (values m.subscriptions)) [
      | some s ↦ (s, m)
      | none ↦
          let s = new_subscription instrument_key timeframe new_id in
          (
            s,
            call_adapter (adapter_subscribe instrument_key timeframe)
                (record m { subscriptions = put m.subscriptions new_id s }),
          )
    ]

-- `sub.status = status`, for the subscription of an id if it is there
unfoldable pub set_status : SubscriptionStatus → String → StreamManager → StreamManager
unfolding get put
set_status status subscription_id m = elim (get m.subscriptions subscription_id) [
  | none ↦ m
  | some s ↦ record m {
    subscriptions = put m.subscriptions subscription_id (record s { status = status });
  }
]

unfoldable pub unsubscribe : String → StreamManager → StreamManager
unfolding set_status get
unsubscribe subscription_id m =
    let m' = set_status stopped subscription_id m in
    elim (get m.subscriptions subscription_id) [
      | none ↦ m'
      | some s ↦
          if truthy s.instrument_key && truthy s.timeframe
          then call_adapter (adapter_unsubscribe s.instrument_key s.timeframe) m'
          else m'
    ]

unfoldable pub pause : String → StreamManager → StreamManager
unfolding set_status
pause = set_status paused

unfoldable pub resume : String → StreamManager → StreamManager
unfolding set_status
resume = set_status active

unfoldable pub list_subscriptions : StreamManager → List StreamSubscription
unfolding values
list_subscriptions m = values m.subscriptions

unfoldable pub get_subscription : String → StreamManager → Option StreamSubscription
unfolding get
get_subscription subscription_id m = get m.subscriptions subscription_id

abbrev pub set_adapter : Bool → StreamManager → StreamManager
set_adapter is_running m = record m { has_adapter = is_running }
