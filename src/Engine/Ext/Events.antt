-- ===== src/Engine/Ext/Events.antt =====
-- Events: `Engine::deposit_event`, which takes the topics apart that an environment has joined.
use native.Mathlib.Nat.{mul-div_cancel_left}
use ink.Prelude.{
  ℕ, zero, suc, ◌*◌, ◌/◌, ◌≤◌, ◌<◌, ◌≡◌, refl, ap, ap₂, sym, ◌∙◌, some, List, [], ◌∷◌, ◌++◌,
  Outcome, ret, panic, ◌>>=◌, ◌>>◌, expect, assert, arith, length, length-append, take, drop, ltb,
  nat_beq, if◌then◌else◌, flatten, take-length_append, drop-length_append,
}
use ink.Engine.Host.{Bytes, Host, HostLaws}
use ink.Engine.DebugInfo
use ink.Engine.DebugInfo.{EmittedEvent}
use ink.Engine.State.{Engine}

-- `chunks(n)` for a positive `n`: pieces of `n` bytes, the last one perhaps shorter. The length of
-- the list is enough fuel.
unfoldable pub chunks_fuel : ℕ → ℕ → Bytes → List Bytes
chunks_fuel zero n xs = []
chunks_fuel (suc fuel) n [] = []
chunks_fuel (suc fuel) n (x ∷ xs) = take n (x ∷ xs) ∷ chunks_fuel fuel n (drop n (x ∷ xs))

-- `chunks(0)` panics.
unfoldable pub chunks : ℕ → Bytes → Outcome (List Bytes)
unfolding chunks_fuel
chunks zero xs = panic
chunks n xs = ret (chunks_fuel (length xs) n xs)

-- `topics[0..1]`
abbrev first_byte : Bytes → Outcome Bytes
first_byte [] = panic
first_byte (b ∷ _) = ret (b ∷ [])

unfoldable pub split_topics : ℕ → Bytes → Outcome (List Bytes)
unfolding chunks
split_topics topics_count topics = do
  topics_vec ← chunks (length topics / topics_count) topics
  assert (nat_beq topics_count (length topics_vec))
  ret topics_vec

module _ ⦃host : Host⦄ where
  unfoldable pub deposit_event : Bytes → Bytes → Engine → Outcome Engine
  unfolding DebugInfo.record_event
  deposit_event topics payload e = do
    first ← first_byte topics
    topics_count ← expect (host.decode_compact_u32 first)
    topics_vec ← if ltb 0 topics_count then split_topics topics_count (drop 1 topics) else ret []
    ret (record e {
      debug_info =
          DebugInfo.record_event (record { topics = topics_vec; payload = payload }) e.debug_info;
    })

abbrev pub AllOfLength : ℕ → List Bytes → Type 0
AllOfLength n [] = Unit
AllOfLength n (t ∷ ts) = (length t ≡ n) × AllOfLength n ts

length-flatten : (n : ℕ) (ts : List Bytes) → AllOfLength n ts → length (flatten ts) ≡ length ts * n
length-flatten n [] h = omega arith
length-flatten n (t ∷ ts) h =
    omega (arith, length-append t (flatten ts), h.0, length-flatten n ts h.1)

chunks_fuel-append :
    (fuel n : ℕ) (t xs : Bytes)
    → length t ≡ suc n
    → chunks_fuel (suc fuel) (suc n) (t ++ xs) ≡ t ∷ chunks_fuel fuel (suc n) xs
unfolding chunks_fuel
chunks_fuel-append fuel n [] xs h = absurd (omega arith)
chunks_fuel-append fuel n (b ∷ t) xs h =
    ap₂ (λ (u v : Bytes). u ∷ chunks_fuel fuel (suc n) v)
      (ap (λ k. take k (b ∷ t ++ xs)) (sym h) ∙ take-length_append (b ∷ t) xs)
      (ap (λ k. drop k (b ∷ t ++ xs)) (sym h) ∙ drop-length_append (b ∷ t) xs)

chunks_fuel-flatten :
    (fuel n : ℕ) (ts : List Bytes)
    → AllOfLength (suc n) ts
    → length (flatten ts) ≤ fuel
    → chunks_fuel fuel (suc n) (flatten ts) ≡ ts
unfolding chunks_fuel
chunks_fuel-flatten zero n [] a h = refl
chunks_fuel-flatten (suc fuel) n [] a h = refl
chunks_fuel-flatten zero n (t ∷ ts) a h = absurd (omega (arith, length-append t (flatten ts), a.0))
chunks_fuel-flatten (suc fuel) n (t ∷ ts) a h =
    chunks_fuel-append fuel n t (flatten ts) a.0
    ∙ ap (λ r. t ∷ r)
        (chunks_fuel-flatten fuel n ts a.1 (omega (arith, length-append t (flatten ts), a.0)))

split_topics-flatten :
    (n : ℕ) (ts : List Bytes)
    → 0 < length ts
    → AllOfLength (suc n) ts
    → split_topics (length ts) (flatten ts) ≡ ret ts
unfolding split_topics chunks
split_topics-flatten n ts h a =
    let per : length (flatten ts) / length ts ≡ suc n =
      rw (length-flatten (suc n) ts a) (mul-div_cancel_left (suc n) h) in
    rw per (rw (chunks_fuel-flatten (length (flatten ts)) n ts a (omega arith)) (ground arith))

module _ ⦃host : Host⦄ (laws : HostLaws host) where
  deposited :
      (ts : List Bytes) (n : ℕ) (payload : Bytes) (e : Engine) (b : ℕ)
      → host.decode_compact_u32 (b ∷ []) ≡ some (length ts)
      → AllOfLength (suc n) ts
      → deposit_event (b ∷ flatten ts) payload e
        ≡ ret (record e {
          debug_info =
              DebugInfo.record_event (record { topics = ts; payload = payload }) e.debug_info;
        })
  unfolding deposit_event
  deposited [] n payload e b d a = rw (d, expect)
  deposited (t ∷ ts) n payload e b d a =
      ground (arith, d, split_topics-flatten n (t ∷ ts) (omega arith) a)

  -- Fewer than 64 topics of one size, at least a byte, that come joined with their number in front,
  -- are recorded one by one with the payload.
  pub deposit_event_lem :
      (ts : List Bytes) (n : ℕ) (payload : Bytes) (e : Engine)
      → length ts < 64
      → AllOfLength (suc n) ts
      → deposit_event (host.encode_compact_u32 (length ts) ++ flatten ts) payload e
        ≡ ret (record e {
          debug_info =
              DebugInfo.record_event (record { topics = ts; payload = payload }) e.debug_info;
        })
  unfolding deposit_event
  deposit_event_lem ts n payload e few a =
      let (b, one_byte) = laws.compact_byte (length ts) few in
      let decoded : host.decode_compact_u32 (b ∷ []) ≡ some (length ts) =
        ap host.decode_compact_u32 (sym one_byte)
        ∙ laws.decode-encode_compact (length ts) (omega arith) in
      rw one_byte (deposited ts n payload e b decoded a)
