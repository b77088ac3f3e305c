-- ===== src/Tests/Brokers.antt =====
-- A broker with two connected clients.
use jack_hotaru_mqtt.Base.{
  ◌≡◌, ◌↔◌, refl, inl, true, false, [], ◌∷◌, Str, bytes, str_eq, none, some, get, map, Any, split,
  if◌then◌else◌, arith,
}
use jack_hotaru_mqtt.Codes.QoS.{at_most_once, at_least_once}
use jack_hotaru_mqtt.Properties.{default}
use jack_hotaru_mqtt.Topic.{validate_subscribe_filter, check_filter}
use jack_hotaru_mqtt.Request.{TopicFilter, WillMessage}
use jack_hotaru_mqtt.Packet.{PublishPacket}
use jack_hotaru_mqtt.Channel
use jack_hotaru_mqtt.Channel.{MqttChannel}
use jack_hotaru_mqtt.Broker.Filter.{filter_matches, match_segments}
use jack_hotaru_mqtt.Broker.Tree
use jack_hotaru_mqtt.Broker.Tree.{SubscriptionTree, matching, remove_client}
use jack_hotaru_mqtt.Broker.Tree.Laws.{sub_of}
use jack_hotaru_mqtt.Broker.State.{
  Broker, SubscriberEntry, publish, subscribe, unsubscribe, unregister_session, will_packet,
  register_session,
}
use jack_hotaru_mqtt.Broker.State.Delivery.{Delivered}
use jack_hotaru_mqtt.Broker.State.Fanout.{publish_elsewhere}
use jack_hotaru_mqtt.Broker.State.Reach.{Queued, publish_reaches}
use jack_hotaru_mqtt.Broker.State.Subscribe.{
  code_for, asked, subscribe_granted, unsubscribe_removed,
}
use jack_hotaru_mqtt.Broker.State.Owned.{IsOwned}
use jack_hotaru_mqtt.Broker.State.Reachable.{
  Reachable, start, registered, subscribed, Reachable-IsOwned, unregister_ends, unregister_will,
}
use jack_hotaru_mqtt.Broker.State.EndToEnd.{subscribe-publish}
use jack_hotaru_mqtt.Broker.State.Listed.{matching_iff}

abbrev pub fresh : MqttChannel
fresh = Channel.new [] 1 Channel.server

abbrev last_words : WillMessage
last_words = record { topic = bytes "s/1"; payload = 0 ∷ []; qos = at_least_once; retain = false }

abbrev pub alice : SubscriberEntry
alice = record { channel = 1; filters = []; will = some last_words; clean_session = true }

abbrev bob : SubscriberEntry
bob = record {
  channel = 2;
  filters = (bytes "s/+", at_least_once) ∷ [];
  will = none;
  clean_session = true;
}

-- Bob has subscribed to `s/+`; Alice has a will at `s/1`.
abbrev pub two_clients : Broker
two_clients = record {
  sessions = (bytes "alice", alice) ∷ (bytes "bob", bob) ∷ [];
  subscriptions = record { subs = (bytes "s/+", (bytes "bob", at_least_once) ∷ []) ∷ [] };
  channels = λ id. fresh;
}

abbrev news : PublishPacket
news = record {
  properties = default;
  topic = bytes "s/1";
  payload = 5 ∷ [];
  dup = false;
  qos = at_most_once;
  retain = true;
  packet_id = none;
}

abbrev all_of_s : TopicFilter
all_of_s = record { filter = bytes "s/#"; qos = at_least_once }

subscribe-publish_example : Queued news at_least_once (
    (publish (bytes "bob") news (subscribe (bytes "alice") (all_of_s ∷ []) two_clients).1).channels
      1)
unfolding validate_subscribe_filter check_filter filter_matches match_segments split
subscribe-publish_example =
    subscribe-publish (bytes "alice") (bytes "bob") all_of_s news two_clients alice refl refl refl
      (λ e. cc) refl

bob_only : matching two_clients.subscriptions (bytes "s/1") ≡ (bytes "bob", at_least_once) ∷ []
unfolding matching filter_matches match_segments split
bob_only = refl

publish_elsewhere_example : (publish (bytes "alice") news two_clients).channels 1 ≡ fresh
unfolding matching filter_matches match_segments split
publish_elsewhere_example =
    publish_elsewhere (bytes "alice") news two_clients 1 ((λ (_, entry, e, same). ground arith), tt)

publish_reaches_example :
    Queued news at_least_once ((publish (bytes "alice") news two_clients).channels 2)
unfolding matching filter_matches match_segments split
publish_reaches_example =
    publish_reaches (bytes "alice") news (bytes "bob") at_least_once two_clients 2 (inl refl)
      ((λ e. cc), bob, refl, refl) refl

subscribe_granted_example :
    let (codes, after) = subscribe (bytes "alice") (all_of_s ∷ []) two_clients in
    (codes ≡ map code_for (all_of_s ∷ []))
    × ((f c : Str)
        → sub_of f c after.subscriptions ≡ (
            if str_eq c (bytes "alice")
            then asked (all_of_s ∷ []) f (sub_of f c two_clients.subscriptions)
            else sub_of f c two_clients.subscriptions))
subscribe_granted_example = subscribe_granted (bytes "alice") (all_of_s ∷ []) two_clients alice refl

unsubscribe_removed_example :
    sub_of
      (bytes "s/+")
      (bytes "bob")
      (unsubscribe (bytes "bob") (bytes "s/+" ∷ []) two_clients).subscriptions
    ≡ none
unsubscribe_removed_example =
    unsubscribe_removed (bytes "bob") (bytes "s/+" ∷ []) two_clients bob (bytes "s/+") (bytes "bob")
      refl

abbrev empty : Broker
empty = record { sessions = []; subscriptions = Tree.new; channels = λ id. fresh }

-- Carol registers and subscribes to `s/#`.
abbrev pub one_client : Broker
one_client =
    (subscribe (bytes "carol") (all_of_s ∷ [])
      (register_session (bytes "carol") 3 none false empty).1).1

pub one_client-Reachable : Reachable one_client
one_client-Reachable =
    subscribed (bytes "carol") (all_of_s ∷ [])
      (registered (bytes "carol") 3 none false (start (λ id. fresh)))

Reachable-IsOwned_example : IsOwned one_client
Reachable-IsOwned_example = Reachable-IsOwned one_client-Reachable

unregister_ends_example :
    let after = unregister_session (bytes "carol") false one_client in
    (get str_eq (bytes "carol") after.sessions ≡ none)
    × (sub_of (bytes "s/#") (bytes "carol") after.subscriptions ≡ none)
    × (get str_eq (bytes "carol") after.sessions ≡ none)
unregister_ends_example =
    unregister_ends (bytes "carol") false one_client (bytes "s/#") (bytes "carol")
      one_client-Reachable

unregister_will_example :
    let abnormal = unregister_session (bytes "alice") false two_clients in
    ((unregister_session (bytes "alice") true two_clients).channels ≡ two_clients.channels)
    × Queued (will_packet last_words) at_least_once (abnormal.channels 2)
    × Delivered (will_packet last_words) fresh (abnormal.channels 1)
unfolding matching filter_matches match_segments split remove_client
unregister_will_example =
    unregister_will (bytes "alice") alice last_words (bytes "bob") at_least_once two_clients 2 1
      refl refl (inl refl) ((λ e. cc), bob, refl, refl) refl

matching_iff_example :
    Any
      (λ sub. sub ≡ (bytes "carol", at_least_once))
      (matching one_client.subscriptions (bytes "s/1"))
    ↔ ((f : Str) × (filter_matches f (split (bytes "s/1")) ≡ true)
        × (sub_of f (bytes "carol") one_client.subscriptions ≡ some at_least_once))
matching_iff_example =
    matching_iff one_client (bytes "s/1") (bytes "carol") at_least_once one_client-Reachable
