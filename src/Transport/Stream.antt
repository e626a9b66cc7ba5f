-- ===== src/Transport/Stream.antt =====
-- crates/transport/src/transports/stream.rs: a connection's calls and the bytes buffered for them.
-- The cancellation token, the `active` flag and the request channel of a call are made together and
-- have one number. What a channel's sender answers to `capacity` is an argument, a function from
-- channels to free places.
pub mod Recv
pub mod Rejecting
pub mod Accounting
pub mod Writing
pub mod Claims
pub mod Ending
pub mod Shutdown
mod Tests
use overseerd.Base.{
  ℕ, ◌+◌, ◌-◌, ◌*◌, Bool, true, false, Option, none, some, List, [], ◌∷◌, ◌++◌, map, length, ltb,
  ◌==◌, ◌||◌, ◌&&◌, if◌then◌else◌, get, remove, replace, map_values, max,
}
use overseerd.Transport.Codec.{FrameConfig}
use overseerd.Transport.Wire.{CallId, TransportError}
use overseerd.Base

abbrev pub inbound_buffer : ℕ
inbound_buffer = 32

abbrev pub default_max_inbound_bytes_per_connection : ℕ
default_max_inbound_bytes_per_connection = 64 * 1024 * 1024

-- `StreamConfig`
pub record StreamConfig : Type 0 where
  pub frame : FrameConfig
  pub max_in_flight_calls : ℕ
  pub control_write_timeout : ℕ
  pub max_inbound_bytes_per_call : ℕ
  pub max_inbound_bytes_per_connection : ℕ

-- `StreamConfig::new` and `with_inbound_byte_limits`, where `none` is a failed assertion
unfoldable pub new : FrameConfig → ℕ → ℕ → Option StreamConfig
new frame max_in_flight_calls control_write_timeout =
    if max_in_flight_calls == 0 || control_write_timeout == 0
    then none
    else some (record {
      frame = frame;
      max_in_flight_calls = max_in_flight_calls;
      control_write_timeout = control_write_timeout;
      max_inbound_bytes_per_call = frame.max_frame_len;
      max_inbound_bytes_per_connection =
          max default_max_inbound_bytes_per_connection frame.max_frame_len;
    })

unfoldable pub with_inbound_byte_limits : StreamConfig → ℕ → ℕ → Option StreamConfig
with_inbound_byte_limits c per_call per_connection =
    if per_call == 0 || ltb per_connection per_call
    then none
    else some (record c {
      max_inbound_bytes_per_call = per_call;
      max_inbound_bytes_per_connection = per_connection;
    })

-- `CallSlot`
pub record CallSlot : Type 0 where
  pub inbound : Option ℕ
  pub inbound_sizes : List ℕ
  pub inbound_bytes : ℕ
  pub inbound_ending : Bool
  pub cancel : ℕ
  pub active : ℕ
  pub tombstone : Bool

-- `CallCompletion`
pub record CallCompletion : Type 0 where
  pub id : CallId
  pub active : ℕ

-- A control task: it writes the error frame of the call whose flag it has won.
pub record ControlTask : Type 0 where
  pub id : CallId
  pub won : ℕ

-- What `join_next` gives: the `ControlCompletion` of a task, or that it broke off
pub data Joined : Type 0 where
  completion : CallId → Base.Result TransportError (Unit {0}) → Joined
  join_error : Joined

-- `StreamConnection` with what it shares: the health's `closed`, the tokens that are cancelled and
-- the `active` flags. `made` counts the calls that were received.
pub record StreamConnection : Type 0 where
  pub config : StreamConfig
  pub calls : List (ℕ × CallSlot)
  pub completions : List CallCompletion
  pub control_tasks : List ControlTask
  pub control_done : List Joined
  pub inbound_bytes : ℕ
  pub is_closed : Bool
  pub cancelled : List ℕ
  pub active : ℕ → Bool
  pub made : ℕ

-- `with_config`
abbrev pub with_config : StreamConfig → StreamConnection
with_config config = record {
  config = config;
  calls = [];
  completions = [];
  control_tasks = [];
  control_done = [];
  inbound_bytes = 0;
  is_closed = false;
  cancelled = [];
  active = λ flag. false;
  made = 0;
}

-- `active.store(false)`
abbrev pub deactivate : ℕ → (ℕ → Bool) → ℕ → Bool
deactivate n active m = if n == m then false else active m

-- `cancel_all`
unfoldable pub cancel_slots : List (ℕ × CallSlot) → List ℕ → List ℕ
cancel_slots [] cancelled = cancelled
cancel_slots ((id, slot) ∷ calls) cancelled = slot.cancel ∷ cancel_slots calls cancelled

unfoldable pub deactivate_slots : List (ℕ × CallSlot) → (ℕ → Bool) → ℕ → Bool
deactivate_slots [] active = active
deactivate_slots ((id, slot) ∷ calls) active =
    deactivate slot.active (deactivate_slots calls active)

unfoldable pub cancel_all : StreamConnection → StreamConnection
cancel_all c = record c {
  cancelled = cancel_slots c.calls c.cancelled;
  active = deactivate_slots c.calls c.active;
}

-- `close`
unfoldable pub close : StreamConnection → StreamConnection
close c = cancel_all (record c { is_closed = true })

-- `while inbound_sizes.len() > queued_items`: the sizes that are released, and what is left
unfoldable pub released : ℕ → List ℕ → ℕ
released queued [] = 0
released queued (size ∷ sizes) =
    let rest = released queued sizes in
    if ltb queued (length (size ∷ sizes)) then size + rest else 0

unfoldable pub unreleased : ℕ → List ℕ → List ℕ
unreleased queued [] = []
unreleased queued (size ∷ sizes) =
    let rest = unreleased queued sizes in
    if ltb queued (length (size ∷ sizes)) then rest else size ∷ sizes

-- What a reconciliation releases of a slot, and the slot after it
unfoldable pub slot_released : (ℕ → ℕ) → CallSlot → ℕ
slot_released capacity slot = elim slot.inbound [
  | none ↦ 0
  | some channel ↦ released (inbound_buffer - capacity channel) slot.inbound_sizes
]

unfoldable pub reconcile_slot : (ℕ → ℕ) → CallSlot → CallSlot
reconcile_slot capacity slot = elim slot.inbound [
  | none ↦ slot
  | some channel ↦
      let queued_items = inbound_buffer - capacity channel in
      record slot {
        inbound_sizes = unreleased queued_items slot.inbound_sizes;
        inbound_bytes = slot.inbound_bytes - released queued_items slot.inbound_sizes;
      }
]

unfoldable pub reconcile_inbound_bytes : (ℕ → ℕ) → CallId → StreamConnection → StreamConnection
reconcile_inbound_bytes capacity id c = elim (get id c.calls) [
  | none ↦ c
  | some slot ↦ record c {
    calls = replace id (reconcile_slot capacity slot) c.calls;
    inbound_bytes = c.inbound_bytes - slot_released capacity slot;
  }
]

unfoldable pub all_released : (ℕ → ℕ) → List (ℕ × CallSlot) → ℕ
all_released capacity [] = 0
all_released capacity ((id, slot) ∷ calls) =
    slot_released capacity slot + all_released capacity calls

unfoldable pub reconcile_all_inbound_bytes : (ℕ → ℕ) → StreamConnection → StreamConnection
reconcile_all_inbound_bytes capacity c = record c {
  calls = map_values (reconcile_slot capacity) c.calls;
  inbound_bytes = c.inbound_bytes - all_released capacity c.calls;
}

-- `remove_call`
unfoldable pub remove_call : CallId → StreamConnection → StreamConnection
remove_call id c = elim (get id c.calls) [
  | none ↦ c
  | some slot ↦ record c {
    calls = remove id c.calls;
    inbound_bytes = c.inbound_bytes - slot.inbound_bytes;
  }
]

abbrev pub without_inbound : CallSlot → CallSlot
without_inbound slot = record slot {
  inbound = none;
  inbound_sizes = [];
  inbound_bytes = 0;
  inbound_ending = false;
}

unfoldable pub discard_closed_inbound : CallId → StreamConnection → StreamConnection
discard_closed_inbound id c = elim (get id c.calls) [
  | none ↦ c
  | some slot ↦ record c {
    calls = replace id (without_inbound slot) c.calls;
    inbound_bytes = c.inbound_bytes - slot.inbound_bytes;
  }
]

abbrev pub is_nil : List ℕ → Bool
is_nil [] = true
is_nil (size ∷ sizes) = false

abbrev pub end_consumed : CallSlot → CallSlot
end_consumed slot =
    if slot.inbound_ending && is_nil slot.inbound_sizes
    then record slot { inbound = none; inbound_ending = false }
    else slot

unfoldable pub finalize_consumed_inbound_ends : (ℕ → ℕ) → StreamConnection → StreamConnection
finalize_consumed_inbound_ends capacity c =
    let r = reconcile_all_inbound_bytes capacity c in
    record r { calls = map_values end_consumed r.calls }
