-- ===== src/Transport/Codec/Tests.antt =====
-- Messages that are one byte or nothing, read from a connection.
use overseerd.Base.{
  ℕ, ◌+◌, ◌*◌, ◌%◌, ◌/◌, ◌≡◌, refl, ◌++◌, Option, none, some, List, [], ◌∷◌, ok, err, arith,
}
use overseerd.Transport.Codec.Limits.{IsBounded, reader_of, read_message-IsBounded}
use overseerd.Transport.Codec.Keeping.{all_bytes, read_message-all_bytes}
use overseerd.Transport.Codec.{
  MessageReader, waits, FrameConfig, with_config, Event, arrived, expired, dropped, returned,
  frame_too_large, read_timeout, read_message, write_message, advance, read_length, read_payload,
  store,
}
use overseerd.Transport.Codec.Reading.{read_message-write_message}

abbrev config : FrameConfig
config = record { max_frame_len = 100; read_idle_timeout = 30 }

abbrev from_bytes : List ℕ → Option ℕ
from_bytes (b ∷ c ∷ []) = some (b + 10 * c)
from_bytes _ = none

abbrev to_allocvec : ℕ → Option (List ℕ)
to_allocvec n = some (n % 10 ∷ n / 10 ∷ [])

-- Some reads bring less than was asked for, and one call is dropped.
abbrev schedule : List Event
schedule =
    arrived 0 1 ∷ arrived 1 2 ∷ dropped ∷ arrived 5 3 ∷ arrived 0 4 ∷ arrived 0 5 ∷ arrived 0 6 ∷ []

too_large :
    read_message config from_bytes
      (arrived 0 1 ∷ arrived 9 2 ∷ [])
      with_config
      (200 ∷ 0 ∷ 0 ∷ 0 ∷ 7 ∷ [])
    ≡ returned
        (err (frame_too_large 200 100))
        (record with_config { prefix = 200 ∷ 0 ∷ 0 ∷ 0 ∷ []; idle_deadline = some 32 })
        (7 ∷ [])
        []
unfolding read_message advance read_length read_payload store
too_large = refl

late :
    read_message config from_bytes (expired ∷ arrived 0 1 ∷ expired ∷ []) with_config (2 ∷ 0 ∷ [])
    ≡ returned
        (err (read_timeout 30))
        (record with_config { prefix = 2 ∷ []; idle_deadline = some 31 })
        (0 ∷ [])
        []
unfolding read_message advance read_length read_payload store
late = refl

written : write_message to_allocvec 42 ≡ ok (2 ∷ 0 ∷ 0 ∷ 0 ∷ 2 ∷ 4 ∷ [])
unfolding write_message
written = refl

read_message-write_message_example :
    (left : List Event) × (read_message config from_bytes schedule with_config
        ((2 ∷ 0 ∷ 0 ∷ 0 ∷ 2 ∷ 4 ∷ []) ++ (9 ∷ []))
      ≡ returned (ok 42) with_config (9 ∷ []) left)
read_message-write_message_example =
    read_message-write_message config from_bytes to_allocvec 42 (2 ∷ 4 ∷ [])
      (2 ∷ 0 ∷ 0 ∷ 0 ∷ 2 ∷ 4 ∷ []) (9 ∷ []) schedule refl refl (omega arith) (omega arith) written
      refl (omega arith)

-- Three bytes have arrived when the schedule is over.
abbrev waiting : MessageReader
waiting = record with_config { prefix = 2 ∷ 0 ∷ 0 ∷ []; idle_deadline = some 32 }

waits_there :
    read_message config from_bytes
      (arrived 0 1 ∷ dropped ∷ arrived 1 2 ∷ [])
      with_config
      (2 ∷ 0 ∷ 0 ∷ 0 ∷ 5 ∷ [])
    ≡ waits waiting (0 ∷ 5 ∷ [])
unfolding read_message advance read_length read_payload store
waits_there = refl

read_message-all_bytes_example :
    all_bytes waiting (0 ∷ 5 ∷ []) ≡ all_bytes with_config (2 ∷ 0 ∷ 0 ∷ 0 ∷ 5 ∷ [])
read_message-all_bytes_example =
    read_message-all_bytes config from_bytes (arrived 0 1 ∷ dropped ∷ arrived 1 2 ∷ []) with_config
      (2 ∷ 0 ∷ 0 ∷ 0 ∷ 5 ∷ []) waiting (0 ∷ 5 ∷ []) (λ short. refl) waits_there

-- The peer announces more than the maximum length.
read_message-IsBounded_example : IsBounded 100 (
    reader_of (
      read_message config from_bytes
        (arrived 0 1 ∷ arrived 5 2 ∷ dropped ∷ arrived 5 3 ∷ [])
        with_config
        (255 ∷ 1 ∷ 0 ∷ 0 ∷ 5 ∷ [])))
read_message-IsBounded_example =
    read_message-IsBounded config from_bytes
      (arrived 0 1 ∷ arrived 5 2 ∷ dropped ∷ arrived 5 3 ∷ []) with_config
      (255 ∷ 1 ∷ 0 ∷ 0 ∷ 5 ∷ []) (omega arith, omega arith, omega arith)
