-- ===== src/Pubsub/Registry.antt =====
-- crates/axum/src/ws/pubsub/registry.rs: the subscription registry. The map is a function from
-- destinations. A channel is a number; what a full or closed channel does with a frame is the
-- channel's, so a publish gives the sends that it tries, in order.
pub mod Live
pub mod Numbers
mod Tests
use overseerd.Base.{
  zero, suc, inc64, ℕ, ◌+◌, ◌%◌, ◌^◌, Bool, true, false, not, ◌&&◌, Option, none, some, List, [],
  ◌∷◌, ◌++◌, map, Text, text_eq, keep_if, ◌==◌, if◌then◌else◌,
}

-- `SubEntry`
pub record SubEntry : Type 0 where
  pub conn : ℕ
  pub sub_id : Text
  pub tx : ℕ

-- `SubscriptionRegistry`
pub record SubscriptionRegistry : Type 0 where
  pub subs : Text → Option (List SubEntry)
  pub next_conn : ℕ
  pub next_message : ℕ

-- `new`
unfoldable pub new : SubscriptionRegistry
new = record { subs = λ destination. none; next_conn = 1; next_message = 1 }

-- `register`
unfoldable pub register : SubscriptionRegistry → SubscriptionRegistry × ℕ
register r = (record r { next_conn = inc64 r.next_conn }, r.next_conn)

-- `next_message_id`
unfoldable pub next_message_id : SubscriptionRegistry → SubscriptionRegistry × ℕ
next_message_id r = (record r { next_message = inc64 r.next_message }, r.next_message)

abbrev pub or_default : Option (List SubEntry) → List SubEntry
or_default none = []
or_default (some entries) = entries

-- `subscribe`
unfoldable pub subscribe : ℕ → Text → Text → ℕ → SubscriptionRegistry → SubscriptionRegistry
subscribe conn sub_id destination tx r =
    let entry : SubEntry = record { conn = conn; sub_id = sub_id; tx = tx } in
    record r {
      subs = λ d.
          if text_eq d destination then some (or_default (r.subs d) ++ entry ∷ []) else r.subs d;
    }

abbrev pub retain : (SubEntry → Bool) → Option (List SubEntry) → Option (List SubEntry)
retain keep none = none
retain keep (some entries) = some (keep_if keep entries)

-- `unsubscribe`
unfoldable pub unsubscribe : ℕ → Text → SubscriptionRegistry → SubscriptionRegistry
unsubscribe conn sub_id r = record r {
  subs = λ d. retain (λ e. not ((e.conn == conn) && text_eq e.sub_id sub_id)) (r.subs d);
}

-- `subs.retain(|_, entries| !entries.is_empty())`
abbrev pub drop_empty : Option (List SubEntry) → Option (List SubEntry)
drop_empty none = none
drop_empty (some []) = none
drop_empty (some (e ∷ entries)) = some (e ∷ entries)

-- `unregister`
unfoldable pub unregister : ℕ → SubscriptionRegistry → SubscriptionRegistry
unregister conn r = record r {
  subs = λ d. drop_empty (retain (λ e. not (e.conn == conn)) (r.subs d));
}

-- `targets`
unfoldable pub targets : Text → SubscriptionRegistry → List (Text × ℕ)
targets destination r = map (λ (e : SubEntry). (e.sub_id, e.tx)) (or_default (r.subs destination))

-- So many ids are taken by other publishes and by `next_message_id`.
unfoldable pub take_ids : ℕ → ℕ → ℕ
take_ids zero next = next
take_ids (suc n) next = take_ids n (inc64 next)

-- The loop of `publish_frames`, on the counter: the sends, and the counter after. Each turn is one
-- `fetch_add`, and others may take ids before each: `others` is how many, turn by turn.
abbrev pub first_gap : List ℕ → ℕ
first_gap [] = 0
first_gap (gap ∷ others) = gap

abbrev pub later_gaps : List ℕ → List ℕ
later_gaps [] = []
later_gaps (gap ∷ others) = others

unfoldable pub send_all {ℓ} :
    {F : Type ℓ} → (Text → ℕ → F) → List (Text × ℕ) → List ℕ → ℕ → List (ℕ × F) × ℕ
send_all make_frame [] others next = ([], next)
send_all make_frame ((sub_id, tx) ∷ rest) others next =
    let message_id = take_ids (first_gap others) next in
    let (sends, after) = send_all make_frame rest (later_gaps others) (inc64 message_id) in
    ((tx, make_frame sub_id message_id) ∷ sends, after)

-- `publish_frames`, to the targets that it finds at its start, while others take ids
unfoldable pub publish_frames {ℓ} :
    {F : Type ℓ}
    → Text
    → (Text → ℕ → F)
    → List ℕ
    → SubscriptionRegistry
    → SubscriptionRegistry × List (ℕ × F)
publish_frames destination make_frame others r =
    let (sends, after) = send_all make_frame (targets destination r) others r.next_message in
    (record r { next_message = after }, sends)

-- What may happen to a registry
pub data Operation : Type 0 where
  registered numbered : Operation
  subscribed : ℕ → Text → Text → ℕ → Operation
  unsubscribed : ℕ → Text → Operation
  unregistered : ℕ → Operation
  published : Text → List ℕ → Operation

unfoldable pub operate : Operation → SubscriptionRegistry → SubscriptionRegistry
operate registered r = (register r).0
operate numbered r = (next_message_id r).0
operate (subscribed conn sub_id destination tx) r = subscribe conn sub_id destination tx r
operate (unsubscribed conn sub_id) r = unsubscribe conn sub_id r
operate (unregistered conn) r = unregister conn r
operate (published destination others) r = (publish_frames destination (λ sub_id id. id) others r).0

-- Operations, the first first
unfoldable pub operate_all : List Operation → SubscriptionRegistry → SubscriptionRegistry
operate_all [] r = r
operate_all (op ∷ ops) r = operate_all ops (operate op r)
