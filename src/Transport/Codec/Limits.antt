-- ===== src/Transport/Codec/Limits.antt =====
-- What a reader holds at most, crates/transport/src/protocol/codec.rs.
use overseerd.Base.{
  ℕ, zero, suc, ◌+◌, ◌-◌, ◌≤◌, ◌≡◌, ◌∙◌, min, refl, sym, subst, true, false, Bool-cases, inl, inr,
  Option, none, some, Option-cases, List, [], ◌∷◌, length, length-append, drop, ltb, arith,
}
use overseerd.Transport.Codec.{
  FrameConfig, MessageReader, take, from_le_bytes, read_chunk_len, Progress, needs, returns, Event,
  arrived, expired, dropped, failed, Outcome, waits, returned, read_payload, read_length, advance,
  store, read_message,
}
use overseerd.Transport.Codec.Calls.{reader_at, read-arrived, read-dropped, read-returns}
use overseerd.Transport.Codec.Keeping.{progress_cases, read-expired, read_late}

abbrev pub allowed : Option ℕ → ℕ
allowed none = 0
allowed (some n) = n

-- At most four bytes of prefix, and no more payload than announced, which is at most the maximum
abbrev pub IsBounded : ℕ → MessageReader → Type 0
IsBounded limit r =
    (length r.prefix ≤ 4)
    × (length r.payload ≤ allowed r.expected_len)
    × (allowed r.expected_len ≤ limit)

-- There is room for the bytes of the next read.
abbrev HasRoom : ℕ → MessageReader → Type 0
HasRoom n r =
    (ltb (length r.prefix) 4 ≡ true → length r.prefix + n ≤ 4)
    × (ltb (length r.prefix) 4 ≡ false → length r.payload + n ≤ allowed r.expected_len)

abbrev StaysBounded : {M : Type 0} → ℕ → Progress M → Type 0
StaysBounded limit (needs n r) = IsBounded limit r × HasRoom n r
StaysBounded limit (returns result r) = IsBounded limit r

abbrev pub reader_of : {M : Type 0} → Outcome M → MessageReader
reader_of (waits r input) = r
reader_of (returned result r input events) = r

length-take : (k : ℕ) (xs : List ℕ) → length (take k xs) ≤ k
length-take zero xs = omega arith
length-take (suc k) [] = omega arith
length-take (suc k) (x ∷ xs) = let on = length-take k xs in omega arith

payload-room : (p len c : ℕ) → ltb p len ≡ true → p + min (len - p) c ≤ len
payload-room p len c more = ground arith

prefix-room : (p : ℕ) → ltb p 4 ≡ true → p + (4 - p) ≤ 4
prefix-room p short = ground arith

module _ {M : Type 0} (config : FrameConfig) (from_bytes : List ℕ → Option M) where
  read_payload-StaysBounded :
      (len : ℕ) (r : MessageReader)
      → r.expected_len ≡ some len
      → ltb (length r.prefix) 4 ≡ false
      → IsBounded config.max_frame_len r
      → StaysBounded config.max_frame_len (read_payload config from_bytes len r)
  unfolding read_payload
  read_payload-StaysBounded len r known whole (p, q, m) =
      let announced : allowed r.expected_len ≡ len = rw known refl in
      elim (Bool-cases (ltb (length r.payload) len)) [
        | inl more ↦ simp more (
          (p, q, m),
          (
            (λ short. absurd (let bad : true ≡ false = sym short ∙ whole in cc)),
            λ again.
                subst
                  (λ (n : ℕ). length r.payload + min (len - length r.payload) read_chunk_len ≤ n)
                  (sym announced) (payload-room (length r.payload) len read_chunk_len more),
          ),
        )
        | inr full ↦ simp full (omega arith, omega arith, omega arith)
      ]

  read_length-StaysBounded :
      (known : Option ℕ) (r : MessageReader)
      → r.expected_len ≡ known
      → ltb (length r.prefix) 4 ≡ false
      → IsBounded config.max_frame_len r
      → StaysBounded config.max_frame_len (read_length config from_bytes known r)
  unfolding read_length
  read_length-StaysBounded (some len) r known whole bounded =
      read_payload-StaysBounded len r known whole bounded
  read_length-StaysBounded none r known whole (p, q, m) =
      elim (Bool-cases (ltb config.max_frame_len (from_le_bytes r.prefix))) [
        | inl large ↦ simp large (p, q, m)
        | inr fits ↦ simp fits (
            let empty : length r.payload ≤ 0 =
              subst (λ (o : Option ℕ). length r.payload ≤ allowed o) known q in
            read_payload-StaysBounded (from_le_bytes r.prefix)
              (record r { expected_len = some (from_le_bytes r.prefix) }) refl whole
              (p, omega arith, ground arith))
      ]

  advance-StaysBounded :
      (prefix : List ℕ) (known : Option ℕ) (payload : List ℕ) (deadline : Option ℕ)
      → IsBounded config.max_frame_len (reader_at prefix known payload deadline)
      → StaysBounded config.max_frame_len
          (advance config from_bytes (reader_at prefix known payload deadline))
  unfolding advance
  advance-StaysBounded [] known payload deadline bounded =
      (bounded, ((λ short. omega arith), λ whole. absurd (let bad : true ≡ false = whole in cc)))
  advance-StaysBounded (b ∷ bytes) known payload deadline bounded =
      elim (Bool-cases (ltb (suc (length bytes)) 4)) [
        | inl short ↦ simp short (
          bounded,
          (
            (λ again. prefix-room (suc (length bytes)) short),
            λ whole. absurd (let bad : true ≡ false = whole in cc),
          ),
        )
        | inr whole ↦ simp whole (
            read_length-StaysBounded known (reader_at (b ∷ bytes) known payload deadline) refl whole
              bounded)
      ]

  store-IsBounded :
      (bytes : List ℕ) (now n : ℕ) (r : MessageReader)
      → length bytes ≤ n
      → IsBounded config.max_frame_len r
      → HasRoom n r
      → IsBounded config.max_frame_len (store config from_bytes bytes now r)
  unfolding store
  store-IsBounded bytes now n r few (p, q, m) (room_prefix, room_payload) =
      elim (Bool-cases (ltb (length r.prefix) 4)) [
        | inl short ↦ simp short (
            let room = room_prefix short in
            let both = length-append r.prefix bytes in (omega arith, q, m))
        | inr whole ↦ simp whole (
            let room = room_payload whole in
            let both = length-append r.payload bytes in (p, omega arith, m))
      ]

  -- A call that returns at once leaves a bounded reader; so the next read is what is left to show.
  unless_returned :
      (events : List Event) (r : MessageReader) (input : List ℕ)
      → IsBounded config.max_frame_len r
      → ((n : ℕ) (r1 : MessageReader)
          → advance config from_bytes r ≡ needs n r1
          → IsBounded config.max_frame_len r1
          → HasRoom n r1
          → IsBounded config.max_frame_len
              (reader_of (read_message config from_bytes events r input)))
      → IsBounded config.max_frame_len (reader_of (read_message config from_bytes events r input))
  unless_returned events r input bounded next =
      let step = advance-StaysBounded r.prefix r.expected_len r.payload r.idle_deadline bounded in
      elim (progress_cases config from_bytes (advance config from_bytes r)) [
        | inr (result, r1, at) ↦
            subst (λ (o : Outcome M). IsBounded config.max_frame_len (reader_of o))
              (sym (read-returns config from_bytes events r r1 input result at))
              (subst (StaysBounded config.max_frame_len) at step)
        | inl (n, r1, at) ↦
            let (bounded1, room) = subst (StaysBounded config.max_frame_len) at step in
            next n r1 at bounded1 room
      ]

  -- Whatever the peer sends and however the calls are dropped, a reader that is bounded at first
  -- stays so, when a call waits and when it returns: at most four bytes of prefix, and no more
  -- payload than was announced, which is at most the maximum frame length.
  pub read_message-IsBounded :
      (events : List Event) (r : MessageReader) (input : List ℕ)
      → IsBounded config.max_frame_len r
      → IsBounded config.max_frame_len (reader_of (read_message config from_bytes events r input))
  unfolding read_message
  read_message-IsBounded [] r input bounded =
      unless_returned [] r input bounded (λ n r1 at bounded1 room. rw (read_message, at) bounded1)
  read_message-IsBounded (dropped ∷ events) r input bounded =
      unless_returned (dropped ∷ events) r input bounded (λ n r1 at bounded1 room.
        rw (read-dropped config from_bytes n events r r1 input at)
          (read_message-IsBounded events r1 input bounded1))
  read_message-IsBounded (failed code ∷ events) r input bounded =
      unless_returned (failed code ∷ events) r input bounded
        (λ n r1 at bounded1 room. rw (read_message, at) bounded1)
  read_message-IsBounded (expired ∷ events) r input bounded =
      unless_returned (expired ∷ events) r input bounded (λ n r1 at bounded1 room.
        elim (Option-cases r1.idle_deadline) [
          | inl free ↦
              rw (read-expired config from_bytes n events r r1 input at free)
                (read_message-IsBounded events r1 input bounded1)
          | inr (deadline, set) ↦
              rw (read_late config from_bytes n deadline events r r1 input at set) bounded1
        ])
  read_message-IsBounded (arrived given now ∷ events) r [] bounded =
      unless_returned (arrived given now ∷ events) r [] bounded
        (λ n r1 at bounded1 room. rw (read_message, at) bounded1)
  read_message-IsBounded (arrived given now ∷ events) r (b ∷ input) bounded =
      unless_returned (arrived given now ∷ events) r (b ∷ input) bounded (λ n r1 at bounded1 room.
        let k = min n (suc given) in
        let got = take k (b ∷ input) in
        let few = length-take k (b ∷ input) in
        rw (read-arrived config from_bytes given now n b events r r1 input at) (
          read_message-IsBounded events (store config from_bytes got now r1) (drop k (b ∷ input))
            (store-IsBounded got now n r1 (ground arith) bounded1 room)))
