-- ===== src/Streams/Tests.antt =====
-- Runs of the stream manager (openpine/streams/manager.py) and instances of its theorems.
use openpine.Streams.Resumed.{IsActiveFor, resume-subscribe}
use openpine.Streams.Single.{run-AreSingle, stop, halt, open_subscription, run, AreSingle}
use openpine.Base.Dict.{get}
use openpine.Streams.Manager.{
  new_subscription, adapter_unsubscribe, resume, adapter_subscribe, pause, unsubscribe, subscribe,
  StreamManager,
}
use openpine.Base.{arith, ◌∷◌, refl, true, ◌≡◌, []}

abbrev none_yet : StreamManager
none_yet = record { subscriptions = []; has_adapter = true; adapter_calls = [] }

abbrev one : StreamManager
one = (subscribe "BTC" "1h" "a" none_yet).1

-- A second subscription to the same is the first one, and the adapter is called once.
subscribes_once : (subscribe "BTC" "1h" "b" one).1 ≡ one
unfolding subscribe
subscribes_once = refl

adapter_is_called :
    (unsubscribe "a" one).adapter_calls
    ≡ adapter_subscribe "BTC" "1h" ∷ adapter_unsubscribe "BTC" "1h" ∷ []
unfolding subscribe unsubscribe
adapter_is_called = refl

run-AreSingle_example :
    AreSingle
      (run
        (open_subscription "BTC" "1h" "a"
          ∷ halt "a"
          ∷ open_subscription "BTC" "1h" "b"
          ∷ stop "b"
          ∷ [])
        none_yet).subscriptions
unfolding get
run-AreSingle_example =
    run-AreSingle
      (open_subscription "BTC" "1h" "a"
        ∷ halt "a"
        ∷ open_subscription "BTC" "1h" "b"
        ∷ stop "b"
        ∷ [])
      none_yet (λ j k s t at_j. absurd (grind (arith, at_j)))

resume-subscribe_example :
    let m' = resume "a" (subscribe "BTC" "1h" "b" (pause "a" one)).1 in
    IsActiveFor "a" "BTC" "1h" m'.subscriptions × IsActiveFor "b" "BTC" "1h" m'.subscriptions
unfolding subscribe pause
resume-subscribe_example =
    resume-subscribe one "a" "b" (new_subscription "BTC" "1h" "a") refl refl refl
