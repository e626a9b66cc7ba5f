-- ===== src/Transport/Codec/Keeping.antt =====
-- The bytes that a dropped call has taken, crates/transport/src/protocol/codec.rs.
use overseerd.Base.{
  ℕ, suc, ◌≡◌, ◌⊎◌, min, refl, sym, ap, ◌∙◌, subst, true, false, Bool-cases, inl, inr, Option, none,
  some, Option-cases, List, [], ◌∷◌, ◌++◌, append_assoc, length, drop, ltb, Result, err,
}
use overseerd.Transport.Codec.{
  FrameConfig, MessageReader, ReadError, take, from_le_bytes, Progress, needs, returns,
  read_timeout, Event, arrived, expired, dropped, failed, Outcome, waits, returned, read_payload,
  read_length, advance, store, read_message,
}
use overseerd.Transport.Codec.Calls.{reader_at, read-arrived, read-dropped}
use overseerd.Transport.Codec.Frames.{take-drop}

-- The bytes that the reader holds, and those still to be read
abbrev pub all_bytes : MessageReader → List ℕ → List ℕ
all_bytes r input = r.prefix ++ (r.payload ++ input)

-- Before the prefix is whole there is no payload.
abbrev pub IsReading : MessageReader → Type 0
IsReading r = ltb (length r.prefix) 4 ≡ true → r.payload ≡ []

-- The reader that waits holds what it held.
abbrev Keeps : {M : Type 0} → MessageReader → Progress M → Type 0
Keeps r (needs n r1) = (r1.prefix ≡ r.prefix) × (r1.payload ≡ r.payload)
Keeps r (returns result r1) = Unit

module _ {M : Type 0} (config : FrameConfig) (from_bytes : List ℕ → Option M) where
  read_payload-Keeps :
      (len : ℕ) (r r0 : MessageReader)
      → r.prefix ≡ r0.prefix
      → r.payload ≡ r0.payload
      → Keeps r0 (read_payload config from_bytes len r)
  unfolding read_payload
  read_payload-Keeps len r r0 p q = elim (Bool-cases (ltb (length r.payload) len)) [
    | inl more ↦ simp more (p, q)
    | inr whole ↦ simp whole tt
  ]

  read_length-Keeps :
      (known : Option ℕ) (r : MessageReader) → Keeps r (read_length config from_bytes known r)
  unfolding read_length
  read_length-Keeps (some len) r = read_payload-Keeps len r r refl refl
  read_length-Keeps none r = elim (Bool-cases (ltb config.max_frame_len (from_le_bytes r.prefix))) [
    | inl large ↦ simp large tt
    | inr fits ↦ simp fits (
        read_payload-Keeps (from_le_bytes r.prefix)
          (record r { expected_len = some (from_le_bytes r.prefix) }) r refl refl)
  ]

  advance-Keeps :
      (prefix : List ℕ) (known : Option ℕ) (payload : List ℕ) (deadline : Option ℕ)
      → Keeps
          (reader_at prefix known payload deadline)
          (advance config from_bytes (reader_at prefix known payload deadline))
  unfolding advance
  advance-Keeps [] known payload deadline = (refl, refl)
  advance-Keeps (b ∷ bytes) known payload deadline =
      elim (Bool-cases (ltb (suc (length bytes)) 4)) [
        | inl short ↦ simp short (refl, refl)
        | inr whole ↦
            simp whole (read_length-Keeps known (reader_at (b ∷ bytes) known payload deadline))
      ]

  store-bytes :
      (bytes rest : List ℕ) (now : ℕ) (r : MessageReader)
      → IsReading r
      → all_bytes (store config from_bytes bytes now r) rest ≡ all_bytes r (bytes ++ rest)
  unfolding store
  store-bytes bytes rest now r reading = elim (Bool-cases (ltb (length r.prefix) 4)) [
    | inl short ↦ simp (short, reading short) (append_assoc r.prefix bytes rest)
    | inr whole ↦
        simp whole (ap (λ (xs : List ℕ). r.prefix ++ xs) (append_assoc r.payload bytes rest))
  ]

  store-IsReading :
      (bytes : List ℕ) (now : ℕ) (r : MessageReader)
      → IsReading r
      → IsReading (store config from_bytes bytes now r)
  unfolding store
  store-IsReading bytes now r reading = elim (Bool-cases (ltb (length r.prefix) 4)) [
    | inl short ↦ simp short (λ again. reading short)
    | inr whole ↦ simp whole (λ again. absurd (let bad : false ≡ true = again in cc))
  ]

  -- A reader that holds the same is reading and holds the same bytes.
  same-IsReading :
      (r r1 : MessageReader)
      → r1.prefix ≡ r.prefix
      → r1.payload ≡ r.payload
      → IsReading r
      → IsReading r1
  same-IsReading r r1 p q reading short =
      q ∙ reading (subst (λ (xs : List ℕ). ltb (length xs) 4 ≡ true) p short)

  same_bytes :
      (r r1 : MessageReader) (input : List ℕ)
      → r1.prefix ≡ r.prefix
      → r1.payload ≡ r.payload
      → all_bytes r1 input ≡ all_bytes r input
  same_bytes r r1 input p q = rw (p, q) refl

  pub progress_cases :
      (p : Progress M)
      → ((n : ℕ) × (r : MessageReader) × (p ≡ needs n r))
        ⊎ ((result : Result ReadError M) × (r : MessageReader) × (p ≡ returns result r))
  progress_cases (needs n r) = inl (n, r, refl)
  progress_cases (returns result r) = inr (result, r, refl)

  waits-reader :
      {r s : MessageReader} {xs ys : List ℕ} → ◌≡◌ {A = Outcome M} (waits r xs) (waits s ys) → r ≡ s
  waits-reader h = cc

  waits-input :
      {r s : MessageReader} {xs ys : List ℕ}
      → ◌≡◌ {A = Outcome M} (waits r xs) (waits s ys)
      → xs ≡ ys
  waits-input h = cc

  -- What waits for its next read is as it was, the bytes of its prefix and payload at least.
  needs-same :
      (r r1 : MessageReader) (n : ℕ)
      → advance config from_bytes r ≡ needs n r1
      → (r1.prefix ≡ r.prefix) × (r1.payload ≡ r.payload)
  needs-same r r1 n at =
      subst (Keeps r) at (advance-Keeps r.prefix r.expected_len r.payload r.idle_deadline)

  pub read-expired :
      (n : ℕ) (events : List Event) (r r1 : MessageReader) (input : List ℕ)
      → advance config from_bytes r ≡ needs n r1
      → r1.idle_deadline ≡ none
      → read_message config from_bytes (expired ∷ events) r input
        ≡ read_message config from_bytes events r1 input
  unfolding read_message
  read-expired n events r r1 input at free = rw (read_message, at) (simp free refl)

  pub read_late :
      (n deadline : ℕ) (events : List Event) (r r1 : MessageReader) (input : List ℕ)
      → advance config from_bytes r ≡ needs n r1
      → r1.idle_deadline ≡ some deadline
      → read_message config from_bytes (expired ∷ events) r input
        ≡ returned (err (read_timeout config.read_idle_timeout)) r1 input events
  unfolding read_message
  read_late n deadline events r r1 input at set = rw (read_message, at) (simp set refl)

  -- A call that waits, on whatever schedule and however often it was dropped, has lost no byte:
  -- what its reader holds and what is still to be read are what they were.
  pub read_message-all_bytes :
      (events : List Event) (r : MessageReader) (input : List ℕ) (r2 : MessageReader)
      (left : List ℕ)
      → IsReading r
      → read_message config from_bytes events r input ≡ waits r2 left
      → all_bytes r2 left ≡ all_bytes r input
  unfolding read_message
  read_message-all_bytes [] r input r2 left reading h =
      elim (progress_cases (advance config from_bytes r)) [
        | inr (result, r1, at) ↦ absurd (let bad = rw (read_message, at) at h in cc)
        | inl (n, r1, at) ↦
            let here = rw (read_message, at) at h in
            let (p, q) = needs-same r r1 n at in
            subst (λ (x : MessageReader). all_bytes x left ≡ all_bytes r input) (waits-reader here)
              (subst (λ (xs : List ℕ). all_bytes r1 xs ≡ all_bytes r input) (waits-input here)
                (same_bytes r r1 input p q))
      ]
  read_message-all_bytes (dropped ∷ events) r input r2 left reading h =
      elim (progress_cases (advance config from_bytes r)) [
        | inr (result, r1, at) ↦ absurd (let bad = rw (read_message, at) at h in cc)
        | inl (n, r1, at) ↦
            let (p, q) = needs-same r r1 n at in
            read_message-all_bytes events r1 input r2 left (same-IsReading r r1 p q reading)
              (sym (read-dropped config from_bytes n events r r1 input at) ∙ h)
            ∙ same_bytes r r1 input p q
      ]
  read_message-all_bytes (failed code ∷ events) r input r2 left reading h =
      elim (progress_cases (advance config from_bytes r)) [
        | inr (result, r1, at) ↦ absurd (let bad = rw (read_message, at) at h in cc)
        | inl (n, r1, at) ↦ absurd (let bad = rw (read_message, at) at h in cc)
      ]
  read_message-all_bytes (expired ∷ events) r input r2 left reading h =
      elim (progress_cases (advance config from_bytes r)) [
        | inr (result, r1, at) ↦ absurd (let bad = rw (read_message, at) at h in cc)
        | inl (n, r1, at) ↦
            let (p, q) = needs-same r r1 n at in
            elim (Option-cases r1.idle_deadline) [
              | inl none_set ↦
                  read_message-all_bytes events r1 input r2 left (same-IsReading r r1 p q reading)
                    (sym (read-expired n events r r1 input at none_set) ∙ h)
                  ∙ same_bytes r r1 input p q
              | inr (deadline, set) ↦
                  absurd (let bad = sym (read_late n deadline events r r1 input at set) ∙ h in cc)
            ]
      ]
  read_message-all_bytes (arrived given now ∷ events) r [] r2 left reading h =
      elim (progress_cases (advance config from_bytes r)) [
        | inr (result, r1, at) ↦ absurd (let bad = rw (read_message, at) at h in cc)
        | inl (n, r1, at) ↦ absurd (let bad = rw (read_message, at) at h in cc)
      ]
  read_message-all_bytes (arrived given now ∷ events) r (b ∷ input) r2 left reading h =
      elim (progress_cases (advance config from_bytes r)) [
        | inr (result, r1, at) ↦ absurd (let bad = rw (read_message, at) at h in cc)
        | inl (n, r1, at) ↦
            let (p, q) = needs-same r r1 n at in
            let on = same-IsReading r r1 p q reading in
            let k = min n (suc given) in
            let got = take k (b ∷ input) in
            read_message-all_bytes events (store config from_bytes got now r1) (drop k (b ∷ input))
              r2 left (store-IsReading got now r1 on)
              (sym (read-arrived config from_bytes given now n b events r r1 input at) ∙ h)
            ∙ store-bytes got (drop k (b ∷ input)) now r1 on
            ∙ ap (all_bytes r1) (take-drop k (b ∷ input))
            ∙ same_bytes r r1 (b ∷ input) p q
      ]
