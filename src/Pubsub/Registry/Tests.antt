-- ===== src/Pubsub/Registry/Tests.antt =====
-- Two connections on one destination, and the theorems at them.
use overseerd.Base.{◌+◌, ◌^◌, ◌<◌, ◌≡◌, refl, List, [], ◌∷◌, map, Text, arith}
use overseerd.Pubsub.Registry.{
  SubEntry, SubscriptionRegistry, new, targets, publish_frames, Operation, registered, subscribed,
  unsubscribed, unregistered, operate_all, operate, subscribe, unsubscribe, unregister, register,
}
use overseerd.Pubsub.Registry.Live.{entries_of, after_all, targets-operate_all}
use overseerd.Pubsub.Registry.Numbers.{channels, IsIncreasing, gaps, publish_frames-ids}

abbrev topic : Text
topic = 47 ∷ 97 ∷ []

abbrev operations : List Operation
operations =
    registered
    ∷ subscribed 1 (48 ∷ []) topic 10
    ∷ registered
    ∷ subscribed 2 (48 ∷ []) topic 20
    ∷ subscribed 1 (49 ∷ []) topic 10
    ∷ unsubscribed 1 (48 ∷ [])
    ∷ []

left : targets topic (operate_all operations new) ≡ (48 ∷ [], 20) ∷ (49 ∷ [], 10) ∷ []
unfolding targets operate_all operate new subscribe unsubscribe register
left = refl

gone :
    targets topic (operate_all (unregistered 2 ∷ []) (operate_all operations new))
    ≡ (49 ∷ [], 10) ∷ []
unfolding targets operate_all operate new subscribe unsubscribe register unregister
gone = refl

targets-operate_all_example :
    targets topic (operate_all operations new)
    ≡ map (λ (e : SubEntry). (e.sub_id, e.tx)) (entries_of topic (after_all operations []))
targets-operate_all_example = targets-operate_all operations topic

abbrev registry : SubscriptionRegistry
registry = subscribe 2 (48 ∷ []) topic 20 new

-- Others take 5 ids before the one send.
room : registry.next_message + (gaps 1 (5 ∷ []) + 1) < 2 ^ 64
unfolding new subscribe
room = omega arith

publish_frames-ids_example :
    let (r', sends) = publish_frames topic (λ sub_id id. id) (5 ∷ []) registry in
    (channels sends ≡ 20 ∷ [])
    × IsIncreasing registry.next_message r'.next_message sends
    × (r'.next_message ≡ registry.next_message + (gaps 1 (5 ∷ []) + 1))
unfolding targets new subscribe
publish_frames-ids_example = publish_frames-ids topic (5 ∷ []) registry room
