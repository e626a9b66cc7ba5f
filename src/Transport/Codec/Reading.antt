-- ===== src/Transport/Codec/Reading.antt =====
-- Frames read in pieces, crates/transport/src/protocol/codec.rs.
use overseerd.Base.{
  ℕ, suc, ◌+◌, ◌-◌, ◌%◌, ◌^◌, ◌≤◌, ◌<◌, ◌≡◌, ◌⊎◌, inl, inr, min, refl, sym, ap, ◌∙◌, subst, true,
  false, Option, none, some, List, [], ◌∷◌, ◌++◌, append_assoc, append-nil, length, length-append,
  length-drop, drop, ltb, ok-injective, ok, arith,
}
use overseerd.Transport.Codec.{
  FrameConfig, MessageReader, with_config, take, to_le_bytes, read_chunk_len, needs, returns, Event,
  arrived, expired, dropped, failed, returned, read_payload, advance, store, read_message,
  write_message,
}
use overseerd.Transport.Codec.Calls.{
  arrivals, is_calm, reader_at, advance-prefix, read-returns, read-arrived, read-dropped,
}
use overseerd.Transport.Codec.Frames.{take-append, drop-append, take-drop}

module _ {M : Type 0} (config : FrameConfig) (from_bytes : List ℕ → Option M) where
  module _ (message : M) (bytes rest : List ℕ) (small : length bytes < 2 ^ 32)
      (fits : length bytes ≤ config.max_frame_len) (reads : from_bytes bytes ≡ some message) where
    -- The call returns the message and leaves what follows the frame.
    abbrev Delivers : List Event → MessageReader → List ℕ → Type 0
    Delivers events r input =
        (left : List Event) × (read_message config from_bytes events r input
          ≡ returned (ok message) with_config rest left)

    advance-whole :
        (known : Option ℕ) (p : List ℕ) (deadline : Option ℕ)
        → (known ≡ none) ⊎ (known ≡ some (length bytes))
        → p ≡ bytes
        → advance config from_bytes (reader_at (to_le_bytes (length bytes)) known p deadline)
          ≡ returns (ok message) with_config
    unfolding read_payload
    advance-whole known p deadline k whole =
        let on = advance-prefix config from_bytes (length bytes) known p deadline small fits k in
        let full : ltb (length bytes) (length bytes) ≡ false = ground arith in
        on ∙ rw (whole, full, reads) refl

    advance-part :
        (known : Option ℕ) (p q : List ℕ) (deadline : Option ℕ)
        → (known ≡ none) ⊎ (known ≡ some (length bytes))
        → length p + length q ≡ length bytes
        → 0 < length q
        → advance config from_bytes (reader_at (to_le_bytes (length bytes)) known p deadline)
          ≡ needs
              (min (length bytes - length p) read_chunk_len)
              (reader_at (to_le_bytes (length bytes)) (some (length bytes)) p deadline)
    unfolding read_payload
    advance-part known p q deadline k whole more =
        let on = advance-prefix config from_bytes (length bytes) known p deadline small fits k in
        let part : ltb (length p) (length bytes) ≡ true = ground arith in on ∙ rw part refl

    payload_delivered :
        (events : List Event) (known : Option ℕ) (p q : List ℕ) (deadline : Option ℕ)
        → (known ≡ none) ⊎ (known ≡ some (length bytes))
        → p ++ q ≡ bytes
        → is_calm events ≡ true
        → length q ≤ arrivals events
        → Delivers events (reader_at (to_le_bytes (length bytes)) known p deadline) (q ++ rest)
    unfolding store
    payload_delivered events known p [] deadline k whole calm enough = (
      events,
      read-returns config from_bytes events _ with_config rest (ok message)
          (advance-whole known p deadline k (sym (append-nil p) ∙ whole)),
    )
    payload_delivered [] known p (b ∷ q) deadline k whole calm enough = absurd (omega arith)
    payload_delivered (arrived given now ∷ events) known p (b ∷ q) deadline k whole calm enough =
        let sizes = sym (length-append p (b ∷ q)) ∙ ap (λ (xs : List ℕ). length xs) whole in
        let waiting = advance-part known p (b ∷ q) deadline k sizes (omega arith) in
        let n = min (min (length bytes - length p) read_chunk_len) (suc given) in
        let room : n ≤ length (b ∷ q) = omega (arith, sizes) in
        let some_read : 1 ≤ n = omega (arith, sizes) in
        let next =
          payload_delivered events (some (length bytes)) (p ++ take n (b ∷ q)) (drop n (b ∷ q))
            (some (now + config.read_idle_timeout)) (inr refl)
            (append_assoc p (take n (b ∷ q)) (drop n (b ∷ q))
              ∙ ap (λ (xs : List ℕ). p ++ xs) (take-drop n (b ∷ q))
              ∙ whole)
            calm (omega (arith, length-drop n (b ∷ q))) in
        (
          next.0,
          read-arrived config from_bytes given now (min (length bytes - length p) read_chunk_len) b
                events _ _ (q ++ rest) waiting
              ∙ rw (take-append n (b ∷ q) rest room, drop-append n (b ∷ q) rest room) next.1,
        )
    payload_delivered (dropped ∷ events) known p (b ∷ q) deadline k whole calm enough =
        let sizes = sym (length-append p (b ∷ q)) ∙ ap (λ (xs : List ℕ). length xs) whole in
        let waiting = advance-part known p (b ∷ q) deadline k sizes (omega arith) in
        let next =
          payload_delivered events (some (length bytes)) p (b ∷ q) deadline (inr refl) whole calm
            enough in
        (
          next.0,
          read-dropped config from_bytes (min (length bytes - length p) read_chunk_len) events _ _
                (b ∷ q ++ rest) waiting
              ∙ next.1,
        )
    payload_delivered (expired ∷ events) known p (b ∷ q) deadline k whole calm enough = cc
    payload_delivered (failed code ∷ events) known p (b ∷ q) deadline k whole calm enough = cc

    advance-short :
        (u : List ℕ) (deadline : Option ℕ)
        → length u < 4
        → (n : ℕ) × (advance config from_bytes (reader_at u none [] deadline)
            ≡ needs n (reader_at u none [] deadline))
          × (1 ≤ n)
          × (n ≤ 4 - length u)
    unfolding advance
    advance-short [] deadline h = (1, refl, omega arith, omega arith)
    advance-short (b ∷ u) deadline h =
        let short : ltb (suc (length u)) 4 ≡ true = ground arith in
        (4 - suc (length u), rw short refl, omega arith, omega arith)

    store-short :
        (u more : List ℕ) (deadline : Option ℕ) (now : ℕ)
        → length u < 4
        → store config from_bytes more now (reader_at u none [] deadline)
          ≡ reader_at (u ++ more) none [] (some (now + config.read_idle_timeout))
    unfolding store
    store-short u more deadline now h =
        let short : ltb (length u) 4 ≡ true = ground arith in rw short refl

    -- The state after some bytes of the prefix have arrived
    rest_of :
        (given now wanted b : ℕ) (u v : List ℕ) (events : List Event) (deadline : Option ℕ)
        (left : List Event)
        → length u < 4
        → min wanted (suc given) ≤ length (b ∷ v)
        → read_message config from_bytes events
            (reader_at
              (u ++ take (min wanted (suc given)) (b ∷ v))
              none
              []
              (some (now + config.read_idle_timeout)))
            (drop (min wanted (suc given)) (b ∷ v) ++ (bytes ++ rest))
          ≡ returned (ok message) with_config rest left
        → read_message config from_bytes events
            (store config from_bytes
              (take (min wanted (suc given)) (b ∷ (v ++ (bytes ++ rest))))
              now
              (reader_at u none [] deadline))
            (drop (min wanted (suc given)) (b ∷ (v ++ (bytes ++ rest))))
          ≡ returned (ok message) with_config rest left
    rest_of given now wanted b u v events deadline left short room h =
        let taken : take (min wanted (suc given)) (b ∷ (v ++ (bytes ++ rest)))
            ≡ take (min wanted (suc given)) (b ∷ v) =
          take-append (min wanted (suc given)) (b ∷ v) (bytes ++ rest) room in
        let left_over : drop (min wanted (suc given)) (b ∷ (v ++ (bytes ++ rest)))
            ≡ drop (min wanted (suc given)) (b ∷ v) ++ (bytes ++ rest) =
          drop-append (min wanted (suc given)) (b ∷ v) (bytes ++ rest) room in
        rw
          (
            taken,
            left_over,
            store-short u (take (min wanted (suc given)) (b ∷ v)) deadline now short,
          )
          h

    prefix_delivered :
        (events : List Event) (u v : List ℕ) (deadline : Option ℕ)
        → u ++ v ≡ to_le_bytes (length bytes)
        → is_calm events ≡ true
        → length v + length bytes ≤ arrivals events
        → Delivers events (reader_at u none [] deadline) (v ++ (bytes ++ rest))
    prefix_delivered events u [] deadline whole calm enough =
        let full : u ≡ to_le_bytes (length bytes) = sym (append-nil u) ∙ whole in
        rw full (payload_delivered events none [] bytes deadline (inl refl) refl calm (omega arith))
    prefix_delivered [] u (b ∷ v) deadline whole calm enough = absurd (omega arith)
    prefix_delivered (arrived given now ∷ events) u (b ∷ v) deadline whole calm enough =
        let sizes = sym (length-append u (b ∷ v)) ∙ ap (λ (xs : List ℕ). length xs) whole in
        let (wanted, waiting, one, most) = advance-short u deadline (omega (arith, sizes)) in
        let n = min wanted (suc given) in
        let room : n ≤ length (b ∷ v) = omega (arith, sizes, most) in
        let some_read : 1 ≤ n = omega (arith, one) in
        let next =
          prefix_delivered events (u ++ take n (b ∷ v)) (drop n (b ∷ v))
            (some (now + config.read_idle_timeout))
            (append_assoc u (take n (b ∷ v)) (drop n (b ∷ v))
              ∙ ap (λ (xs : List ℕ). u ++ xs) (take-drop n (b ∷ v))
              ∙ whole)
            calm (omega (arith, length-drop n (b ∷ v))) in
        (
          next.0,
          read-arrived config from_bytes given now wanted b events _ _ (v ++ (bytes ++ rest))
                waiting
              ∙ rest_of given now wanted b u v events deadline next.0 (omega (arith, sizes)) room
                  next.1,
        )
    prefix_delivered (dropped ∷ events) u (b ∷ v) deadline whole calm enough =
        let sizes = sym (length-append u (b ∷ v)) ∙ ap (λ (xs : List ℕ). length xs) whole in
        let (wanted, waiting, one, most) = advance-short u deadline (omega (arith, sizes)) in
        let next = prefix_delivered events u (b ∷ v) deadline whole calm enough in
        (
          next.0,
          read-dropped config from_bytes wanted events _ _ (b ∷ (v ++ (bytes ++ rest))) waiting
              ∙ next.1,
        )
    prefix_delivered (expired ∷ events) u (b ∷ v) deadline whole calm enough = cc
    prefix_delivered (failed code ∷ events) u (b ∷ v) deadline whole calm enough = cc

-- A message that serializes to at most `max_frame_len` and fewer than 2^32 bytes, and whose bytes
-- deserialize to it, is read back as it was written: however the bytes are split over the reads
-- and however often the call is dropped and made again, once as many reads have brought bytes as
-- the frame has, if no read fails. What follows the frame stays, and the reader is as new.
pub read_message-write_message :
    {M : Type 0} (config : FrameConfig) (from_bytes : List ℕ → Option M)
    (to_allocvec : M → Option (List ℕ)) (message : M) (bytes frame rest : List ℕ)
    (events : List Event)
    → to_allocvec message ≡ some bytes
    → from_bytes bytes ≡ some message
    → length bytes < 2 ^ 32
    → length bytes ≤ config.max_frame_len
    → write_message to_allocvec message ≡ ok frame
    → is_calm events ≡ true
    → length frame ≤ arrivals events
    → (left : List Event) × (read_message config from_bytes events with_config (frame ++ rest)
        ≡ returned (ok message) with_config rest left)
unfolding write_message
read_message-write_message config from_bytes to_allocvec message bytes frame rest events to from
      small fits written calm enough =
    let whole : to_le_bytes (length bytes % 2 ^ 32) ++ bytes ≡ frame =
      ok-injective (rw (write_message, to) at written) in
    let same : length bytes % 2 ^ 32 ≡ length bytes = omega arith in
    let frame_is : to_le_bytes (length bytes) ++ bytes ≡ frame = rw same at whole in
    let size = ap (λ (xs : List ℕ). length xs) frame_is in
    subst
      (λ (f : List ℕ).
        (left : List Event) × (read_message config from_bytes events with_config (f ++ rest)
          ≡ returned (ok message) with_config rest left))
      frame_is
      (rw (append_assoc (to_le_bytes (length bytes)) bytes rest) (
        prefix_delivered config from_bytes message bytes rest small fits from events []
          (to_le_bytes (length bytes)) none refl calm (omega (arith, size))))
