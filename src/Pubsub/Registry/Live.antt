-- ===== src/Pubsub/Registry/Live.antt =====
-- The registry of crates/axum/src/ws/pubsub/registry.rs beside the plain list of subscriptions.
use overseerd.Base.{
  ◌≡◌, refl, sym, ap, ◌∙◌, Bool, not, ◌&&◌, Option, none, some, List, [], ◌∷◌, ◌++◌, map, Text,
  text_eq, keep_if, ◌==◌, arith, if◌then◌else◌, Bool-cases, inl, inr,
}
use overseerd.Pubsub.Registry.{
  SubEntry, SubscriptionRegistry, new, register, next_message_id, or_default, subscribe, retain,
  unsubscribe, drop_empty, unregister, targets, publish_frames, Operation, registered, numbered,
  subscribed, unsubscribed, unregistered, published, operate, operate_all,
}

-- A live subscription: its destination and its entry
abbrev pub Live : Type 0
Live = Text × SubEntry

-- What is promised: a subscription lives from its `subscribe` to its `unsubscribe` or its
-- connection's `unregister`.
unfoldable pub after_operation : Operation → List Live → List Live
after_operation (subscribed conn sub_id destination tx) live =
    live ++ (destination, record { conn = conn; sub_id = sub_id; tx = tx }) ∷ []
after_operation (unsubscribed conn sub_id) live =
    keep_if (λ (l : Live). not ((l.1.conn == conn) && text_eq l.1.sub_id sub_id)) live
after_operation (unregistered conn) live = keep_if (λ (l : Live). not (l.1.conn == conn)) live
after_operation _ live = live

unfoldable pub after_all : List Operation → List Live → List Live
after_all [] live = live
after_all (op ∷ ops) live = after_all ops (after_operation op live)

-- The entries of a destination, in the order of their subscription
unfoldable pub entries_of : Text → List Live → List SubEntry
entries_of d [] = []
entries_of d ((destination, e) ∷ live) =
    let rest = entries_of d live in if text_eq d destination then e ∷ rest else rest

-- The registry holds these subscriptions.
abbrev Holds : List Live → SubscriptionRegistry → Type 0
Holds live r = (d : Text) → or_default (r.subs d) ≡ entries_of d live

entries_of-snoc :
    (d destination : Text) (e : SubEntry) (live : List Live)
    → entries_of d (live ++ (destination, e) ∷ [])
      ≡ (if text_eq d destination then entries_of d live ++ e ∷ [] else entries_of d live)
unfolding entries_of
entries_of-snoc d destination e [] = refl
entries_of-snoc d destination e ((other, f) ∷ live) =
    ground (arith, entries_of-snoc d destination e live)

entries_of-keep_if :
    (keep : SubEntry → Bool) (d : Text) (live : List Live)
    → entries_of d (keep_if (λ (l : Live). keep l.1) live) ≡ keep_if keep (entries_of d live)
unfolding entries_of
entries_of-keep_if keep d [] = refl
entries_of-keep_if keep d ((other, f) ∷ live) = ground (arith, entries_of-keep_if keep d live)

or_default-retain :
    (keep : SubEntry → Bool) (o : Option (List SubEntry))
    → or_default (retain keep o) ≡ keep_if keep (or_default o)
or_default-retain keep none = refl
or_default-retain keep (some entries) = refl

or_default-drop_empty : (o : Option (List SubEntry)) → or_default (drop_empty o) ≡ or_default o
or_default-drop_empty none = refl
or_default-drop_empty (some []) = refl
or_default-drop_empty (some (e ∷ entries)) = refl

operate-Holds :
    (op : Operation) (live : List Live) (r : SubscriptionRegistry)
    → Holds live r
    → Holds (after_operation op live) (operate op r)
unfolding operate after_operation register next_message_id subscribe unsubscribe unregister
    publish_frames
operate-Holds registered live r h d = h d
operate-Holds numbered live r h d = h d
operate-Holds (published destination others) live r h d = h d
operate-Holds (subscribed conn sub_id destination tx) live r h d =
    elim (Bool-cases (text_eq d destination)) [
      | inl here ↦
          rw
            (
              here,
              entries_of-snoc d destination (record { conn = conn; sub_id = sub_id; tx = tx }) live,
              here,
              h d,
            )
            refl
      | inr away ↦
          rw
            (
              away,
              entries_of-snoc d destination (record { conn = conn; sub_id = sub_id; tx = tx }) live,
              away,
            )
            (h d)
    ]
operate-Holds (unsubscribed conn sub_id) live r h d =
    let keep : SubEntry → Bool = λ e. not ((e.conn == conn) && text_eq e.sub_id sub_id) in
    or_default-retain keep (r.subs d)
    ∙ ap (keep_if keep) (h d)
    ∙ sym (entries_of-keep_if keep d live)
operate-Holds (unregistered conn) live r h d =
    let keep : SubEntry → Bool = λ e. not (e.conn == conn) in
    or_default-drop_empty (retain keep (r.subs d))
    ∙ or_default-retain keep (r.subs d)
    ∙ ap (keep_if keep) (h d)
    ∙ sym (entries_of-keep_if keep d live)

operate_all-Holds :
    (ops : List Operation) (live : List Live) (r : SubscriptionRegistry)
    → Holds live r
    → Holds (after_all ops live) (operate_all ops r)
unfolding operate_all after_all
operate_all-Holds [] live r h = h
operate_all-Holds (op ∷ ops) live r h =
    operate_all-Holds ops (after_operation op live) (operate op r) (operate-Holds op live r h)

-- After any operations on a new registry, the targets of a destination are the subscriptions of it
-- that live, in the order in which they were made.
pub targets-operate_all :
    (ops : List Operation) (destination : Text)
    → targets destination (operate_all ops new)
      ≡ map (λ (e : SubEntry). (e.sub_id, e.tx)) (entries_of destination (after_all ops []))
unfolding targets new entries_of
targets-operate_all ops destination =
    ap (map (λ (e : SubEntry). (e.sub_id, e.tx)))
      (operate_all-Holds ops [] new (λ d. refl) destination)
