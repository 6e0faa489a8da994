-- ===== src/Notifications/Http.antt =====
-- app/notifications/http.py: the capped read of a response body.
use unifi_netwatcher.Base.{
  ltb, leb, if◌then◌else◌, ltb-false, Bool-cases, or-eq_false, length, is_empty, length-append,
  ok-injective, Exception, Result, ok, err, body_limit_exceeded, read_deadline_exceeded, ℕ, ◌+◌,
  ◌-◌, ◌*◌, ◌^◌, ◌≤◌, ◌≡◌, sym, ◌∙◌, inl, inr, ◌||◌, List, [], ◌∷◌, ◌++◌, arith,
}
use mathlib.Core.List.{append-nil, append_assoc}

-- A chunk of the body, and the time at which it arrives; `raised` is an exception of the stream.
pub data Arrival : Type 0 where
  chunk : ℕ → List ℕ → Arrival
  raised : Exception → Arrival

-- The loop: `body` is what has been read. The response is closed in every case.
unfoldable pub read_chunks : ℕ → ℕ → List ℕ → List Arrival → Result (List ℕ)
read_chunks limit deadline body [] = ok body
read_chunks limit deadline body (raised e ∷ rest) = err e
read_chunks limit deadline body (chunk now bytes ∷ rest) =
    let skipped = read_chunks limit deadline body rest in
    let more = read_chunks limit deadline (body ++ bytes) rest in
    if ltb deadline now
    then err read_deadline_exceeded
    else if is_empty bytes
    then skipped
    else if leb (limit - length body) 0 || ltb (limit - length body) (length bytes)
    then err body_limit_exceeded
    else more

-- The bytes, before they are decoded with replacement characters.
unfoldable pub read_capped_response : ℕ → ℕ → ℕ → List Arrival → Result (List ℕ)
read_capped_response limit started seconds arrivals =
    read_chunks limit (started + seconds * 10 ^ 6) [] arrivals

-- The bytes of a stream, one chunk after the other.
abbrev pub all_bytes : List Arrival → List ℕ
all_bytes [] = []
all_bytes (raised e ∷ rest) = all_bytes rest
all_bytes (chunk now bytes ∷ rest) = bytes ++ all_bytes rest

read_chunks-all :
    (limit deadline : ℕ) (arrivals : List Arrival) (body bytes : List ℕ)
    → length body ≤ limit
    → read_chunks limit deadline body arrivals ≡ ok bytes
    → (bytes ≡ body ++ all_bytes arrivals) × (length bytes ≤ limit)
unfolding read_chunks
read_chunks-all limit deadline [] body bytes le h =
    rw (sym (ok-injective h)) (sym (append-nil body), le)
read_chunks-all limit deadline (raised e ∷ rest) body bytes le h = absurd (ground arith)
read_chunks-all limit deadline (chunk now [] ∷ rest) body bytes le h =
    elim (Bool-cases (ltb deadline now)) [
      | inl e ↦ absurd (ground (arith, rw e at h))
      | inr e ↦ read_chunks-all limit deadline rest body bytes le (rw e at h)
    ]
read_chunks-all limit deadline (chunk now (b ∷ bs) ∷ rest) body bytes le h =
    elim (Bool-cases (ltb deadline now)) [
      | inl e ↦ absurd (ground (arith, rw e at h))
      | inr e ↦
          elim (Bool-cases
            (leb (limit - length body) 0 || ltb (limit - length body) (length (b ∷ bs)))) [
              | inl q ↦ absurd (ground (arith, rw (e, q) at h))
              | inr q ↦
                  let (full, over) =
                    or-eq_false (leb (limit - length body) 0)
                      (ltb (limit - length body) (length (b ∷ bs))) q in
                  let fits : length (b ∷ bs) ≤ limit - length body =
                    ltb-false (limit - length body) (length (b ∷ bs)) over in
                  let small : length (body ++ b ∷ bs) ≤ limit =
                    omega (arith, le, length-append body (b ∷ bs), fits) in
                  let (r, n) =
                    read_chunks-all limit deadline rest (body ++ b ∷ bs) bytes small
                      (rw (e, q) at h) in
                  (r ∙ append_assoc body (b ∷ bs) (all_bytes rest), n)
            ]
    ]

-- A read that returns, returns the whole body and no more than the limit of it: a longer body
-- raises.
pub read_capped_response_lem :
    (limit started seconds : ℕ) (arrivals : List Arrival) (bytes : List ℕ)
    → read_capped_response limit started seconds arrivals ≡ ok bytes
    → (bytes ≡ all_bytes arrivals) × (length bytes ≤ limit)
unfolding read_capped_response
read_capped_response_lem limit started seconds arrivals bytes h =
    read_chunks-all limit _ arrivals [] bytes (omega arith) h
