-- ===== src/Transport/Codec/Calls.antt =====
-- One call of `MessageReader::read_message`, crates/transport/src/protocol/codec.rs.
use overseerd.Base.{
  ℕ, suc, ◌^◌, ◌≤◌, ◌<◌, ◌≡◌, ◌⊎◌, inl, inr, min, refl, Bool, true, false, Option, none, some, List,
  [], ◌∷◌, drop, ltb, Result, arith,
}
use overseerd.Transport.Codec.{
  FrameConfig, MessageReader, ReadError, take, to_le_bytes, needs, returns, Event, arrived, expired,
  dropped, failed, returned, read_payload, read_length, advance, store, read_message,
}
use overseerd.Transport.Codec.Frames.{from_le_bytes-to_le_bytes}

-- How many reads of a schedule bring bytes, and whether none of its reads fails
abbrev pub arrivals : List Event → ℕ
arrivals [] = 0
arrivals (arrived given now ∷ events) = suc (arrivals events)
arrivals (_ ∷ events) = arrivals events

abbrev pub is_calm : List Event → Bool
is_calm [] = true
is_calm (arrived given now ∷ events) = is_calm events
is_calm (dropped ∷ events) = is_calm events
is_calm (expired ∷ events) = false
is_calm (failed code ∷ events) = false

abbrev pub reader_at : List ℕ → Option ℕ → List ℕ → Option ℕ → MessageReader
reader_at prefix expected_len payload deadline = record {
  prefix = prefix;
  expected_len = expected_len;
  payload = payload;
  idle_deadline = deadline;
}

module _ {M : Type 0} (config : FrameConfig) (from_bytes : List ℕ → Option M) where
  -- With the whole prefix, the reader goes on to the payload.
  pub advance-prefix :
      (n : ℕ) (known : Option ℕ) (payload : List ℕ) (deadline : Option ℕ)
      → n < 2 ^ 32
      → n ≤ config.max_frame_len
      → (known ≡ none) ⊎ (known ≡ some n)
      → advance config from_bytes (reader_at (to_le_bytes n) known payload deadline)
        ≡ read_payload config from_bytes n (reader_at (to_le_bytes n) (some n) payload deadline)
  unfolding advance read_length
  advance-prefix n known payload deadline small fits (inl h) =
      let le = from_le_bytes-to_le_bytes n small in
      let under : ltb config.max_frame_len n ≡ false = ground arith in rw (h, le, under) refl
  advance-prefix n known payload deadline small fits (inr h) = rw h refl

  pub read-returns :
      (events : List Event) (r r1 : MessageReader) (input : List ℕ) (result : Result ReadError M)
      → advance config from_bytes r ≡ returns result r1
      → read_message config from_bytes events r input ≡ returned result r1 input events
  unfolding read_message
  read-returns [] r r1 input result h = rw (read_message, h) refl
  read-returns (event ∷ events) r r1 input result h = rw (read_message, h) refl

  pub read-arrived :
      (given now n b : ℕ) (events : List Event) (r r1 : MessageReader) (input : List ℕ)
      → advance config from_bytes r ≡ needs n r1
      → read_message config from_bytes (arrived given now ∷ events) r (b ∷ input)
        ≡ read_message config from_bytes events
            (store config from_bytes (take (min n (suc given)) (b ∷ input)) now r1)
            (drop (min n (suc given)) (b ∷ input))
  unfolding read_message
  read-arrived given now n b events r r1 input h = rw (read_message, h) refl

  pub read-dropped :
      (n : ℕ) (events : List Event) (r r1 : MessageReader) (input : List ℕ)
      → advance config from_bytes r ≡ needs n r1
      → read_message config from_bytes (dropped ∷ events) r input
        ≡ read_message config from_bytes events r1 input
  unfolding read_message
  read-dropped n events r r1 input h = rw (read_message, h) refl
