-- ===== src/Transport/Codec.antt =====
-- crates/transport/src/protocol/codec.rs: length-prefixed messages.
-- A byte is a number below 256. The serialization library is a parameter: `from_bytes` and
-- `to_allocvec` on a message type. A connection is the bytes that are still to be read; a schedule
-- says what becomes of each awaited read. Memory is assumed to suffice, so `FrameAllocation`
-- does not occur, and the payload's capacity is left out.
pub mod Frames
pub mod Calls
pub mod Reading
pub mod Keeping
pub mod Limits
mod Tests
use overseerd.Base.{
  ℕ, zero, suc, ◌+◌, ◌-◌, ◌*◌, ◌/◌, ◌%◌, ◌^◌, min, Bool, true, false, Option, none, some, List, [],
  ◌∷◌, ◌++◌, length, drop, ltb, if◌then◌else◌, Result, ok, err,
}

-- `DEFAULT_MAX_FRAME_LEN` and `READ_CHUNK_LEN`
abbrev pub default_max_frame_len : ℕ
default_max_frame_len = 16 * 1024 * 1024

abbrev pub read_chunk_len : ℕ
read_chunk_len = 8 * 1024

-- `FrameConfig`
pub record FrameConfig : Type 0 where
  pub max_frame_len : ℕ
  pub read_idle_timeout : ℕ

-- `MessageReader`, but for its stream and configuration. `prefix` is the part of the array up to
-- `prefix_read`.
pub record MessageReader : Type 0 where
  pub prefix : List ℕ
  pub expected_len : Option ℕ
  pub payload : List ℕ
  pub idle_deadline : Option ℕ

-- `with_config`
abbrev pub with_config : MessageReader
with_config = record { prefix = []; expected_len = none; payload = []; idle_deadline = none }

-- The errors that reading raises
pub data ReadError : Type 0 where
  unexpected_eof serialization : ReadError
  io_error : ℕ → ReadError
  frame_too_large : ℕ → ℕ → ReadError
  read_timeout : ℕ → ReadError

abbrev pub take {ℓ} : {A : Type ℓ} → ℕ → List A → List A
take zero xs = []
take (suc n) [] = []
take (suc n) (x ∷ xs) = x ∷ take n xs

-- `u32::from_le_bytes` and `write_u32_le`
abbrev pub from_le_bytes : List ℕ → ℕ
from_le_bytes [] = 0
from_le_bytes (b ∷ bytes) = b + 256 * from_le_bytes bytes

abbrev pub to_le_bytes : ℕ → List ℕ
to_le_bytes n = n % 256 ∷ n / 256 % 256 ∷ n / 65536 % 256 ∷ n / 16777216 % 256 ∷ []

-- What `read_message` does up to its next read: it waits for some bytes, or it returns.
pub data Progress (M : Type 0) : Type 0 where
  needs : ℕ → MessageReader → Progress M
  returns : Result ReadError M → MessageReader → Progress M

-- What becomes of an awaited read: the peer's next bytes arrive, at most as many and one more, at an
-- instant; the deadline passes; the stream fails; or the future is dropped and called again.
pub data Event : Type 0 where
  arrived : ℕ → ℕ → Event
  expired dropped : Event
  failed : ℕ → Event

-- Where a call stands when the schedule is over: it waits, or it has returned.
pub data Outcome (M : Type 0) : Type 0 where
  waits : MessageReader → List ℕ → Outcome M
  returned : Result ReadError M → MessageReader → List ℕ → List Event → Outcome M

module _ {M : Type 0} (config : FrameConfig) (from_bytes : List ℕ → Option M) where
  abbrev decoded : Option M → Result ReadError M
  decoded none = err serialization
  decoded (some message) = ok message

  -- The second loop and what follows it, for the expected length
  unfoldable pub read_payload : ℕ → MessageReader → Progress M
  read_payload expected_len r =
      if ltb (length r.payload) expected_len
      then needs (min (expected_len - length r.payload) read_chunk_len) r
      else returns (decoded (from_bytes r.payload))
          (record { prefix = []; expected_len = none; payload = []; idle_deadline = none })

  -- `match self.expected_len`
  unfoldable pub read_length : Option ℕ → MessageReader → Progress M
  read_length (some len) r = read_payload len r
  read_length none r =
      let len = from_le_bytes r.prefix in
      let on = read_payload len (record r { expected_len = some len }) in
      if ltb config.max_frame_len len
      then returns (err (frame_too_large len config.max_frame_len)) r
      else on

  -- `read_message`, up to its next read. The first read asks for one byte only.
  unfoldable pub advance : MessageReader → Progress M
  advance r = elim r.prefix [
    | [] ↦ needs 1 r
    | b ∷ bytes ↦
        if ltb (length (b ∷ bytes)) 4
        then needs (4 - length (b ∷ bytes)) r
        else read_length r.expected_len r
  ]

  -- The bytes of a read are stored, and the deadline is set anew.
  unfoldable pub store : List ℕ → ℕ → MessageReader → MessageReader
  store bytes now r =
      if ltb (length r.prefix) 4
      then record r {
        prefix = r.prefix ++ bytes;
        idle_deadline = some (now + config.read_idle_timeout);
      }
      else record r {
        payload = r.payload ++ bytes;
        idle_deadline = some (now + config.read_idle_timeout);
      }

  -- `read_message` on a schedule, with calls anew where the future was dropped. Before the
  -- first byte there is no deadline that could pass.
  unfoldable pub read_message : List Event → MessageReader → List ℕ → Outcome M
  read_message [] r input = elim (advance r) [
    | needs n r1 ↦ waits r1 input
    | returns result r1 ↦ returned result r1 input []
  ]
  read_message (event ∷ events) r input = elim (advance r) [
    | returns result r1 ↦ returned result r1 input (event ∷ events)
    | needs n r1 ↦
        let again = read_message events r1 input in
        let more = λ (given now : ℕ).
          read_message events (store (take (min n (suc given)) input) now r1)
            (drop (min n (suc given)) input) in
        elim event [
          | dropped ↦ again
          | failed code ↦ returned (err (io_error code)) r1 input events
          | expired ↦ elim r1.idle_deadline [
            | none ↦ again
            | some at ↦ returned (err (read_timeout config.read_idle_timeout)) r1 input events
          ]
          | arrived given now ↦ elim input [
            | [] ↦ returned (err unexpected_eof) r1 [] events
            | _ ∷ _ ↦ more given now
          ]
        ]
  ]

-- `write_message`: the bytes that are written, if the message serializes
unfoldable pub write_message : {M : Type 0} → (M → Option (List ℕ)) → M → Result ReadError (List ℕ)
write_message to_allocvec message = elim (to_allocvec message) [
  | none ↦ err serialization
  | some bytes ↦ ok (to_le_bytes (length bytes % 2 ^ 32) ++ bytes)
]
