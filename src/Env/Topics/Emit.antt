-- ===== src/Env/Topics/Emit.antt =====
-- What `emit_event` of crates/env/src/engine/off_chain/impls.rs records.
use mathlib.Core.List.{append_assoc, append-nil}
use Prim.Native.Nat.{min}
use ink.Prelude.{
  ℕ, suc, ◌≡◌, ◌≤◌, ◌<◌, refl, sym, ap, ◌∙◌, ◌%◌, Option, none, some, List, [], ◌∷◌, ◌++◌, Bytes,
  length, take, drop, length-append, length-take, length-drop, length-replicate, ret, arith,
}
use ink.Engine.Host.{Host, HostLaws, u32_mod}
use ink.Engine.State.{Engine}
use ink.Engine.DebugInfo
use ink.Engine.Ext.Events.{deposit_event_lem, AllOfLength}
use ink.Env.Topics.{
  clear_hash, overwrite, topic_of, push_topic, push_option, push_all, output, Event, emit_event,
}

length-overwrite :
    (source result : Bytes)
    → length source ≤ length result
    → length (overwrite source result) ≡ length result
length-overwrite source result h =
    omega (
      arith,
      length-append source (drop (length source) result),
      length-drop (length source) result,
    )

module _ ⦃host : Host⦄ (n : ℕ) where
  length-topic_of : (encoded : Bytes) → length (topic_of n encoded) ≡ n
  unfolding topic_of
  length-topic_of encoded = ground (
    arith,
    length-overwrite encoded (clear_hash n),
    length-overwrite (take (min (length (host.blake2b_256 encoded)) n) (host.blake2b_256 encoded))
        (clear_hash n),
    length-take (min (length (host.blake2b_256 encoded)) n) (host.blake2b_256 encoded),
    length-replicate {A = ℕ} n 0,
  )

  -- The encoding that stands for an optional topic.
  abbrev pub or_zero : Option Bytes → Bytes
  or_zero none = 0 ∷ []
  or_zero (some t) = t

  abbrev pub topics_of : List (Option Bytes) → List Bytes
  topics_of [] = []
  topics_of (t ∷ ts) = topic_of n (or_zero t) ∷ topics_of ts

  push_all_lem :
      (ts : List (Option Bytes)) (done : List Bytes)
      → push_all n ts (record { topics = done }) ≡ record { topics = done ++ topics_of ts }
  unfolding push_option push_topic
  push_all_lem [] done = ap (λ ts. record { topics = ts }) (sym (append-nil done))
  push_all_lem (none ∷ ts) done =
      push_all_lem ts (done ++ topic_of n (0 ∷ []) ∷ [])
      ∙ ap (λ ts. record { topics = ts })
          (append_assoc done (topic_of n (0 ∷ []) ∷ []) (topics_of ts))
  push_all_lem (some t ∷ ts) done =
      push_all_lem ts (done ++ topic_of n t ∷ [])
      ∙ ap (λ ts. record { topics = ts }) (append_assoc done (topic_of n t ∷ []) (topics_of ts))

  topics_of-AllOfLength : (ts : List (Option Bytes)) → AllOfLength n (topics_of ts)
  topics_of-AllOfLength [] = tt
  topics_of-AllOfLength (t ∷ ts) = (length-topic_of (or_zero t), topics_of-AllOfLength ts)

  length-topics_of : (ts : List (Option Bytes)) → length (topics_of ts) ≡ length ts
  length-topics_of [] = refl
  length-topics_of (t ∷ ts) = ap suc (length-topics_of ts)

-- An event of fewer than 64 topics is recorded by the engine with one topic for each of its own, in
-- order, and its encoding. The hash type is not empty.
pub emit_event_lem :
    ⦃host : Host⦄ (laws : HostLaws host) (n : ℕ) (event : Event (suc n)) (e : Engine)
    → length event.topics < 64
    → emit_event (suc n) event e
      ≡ ret (record e {
        debug_info =
            DebugInfo.record_event
              (record { topics = topics_of (suc n) event.topics; payload = event.encoding })
              e.debug_info;
      })
unfolding emit_event output
emit_event_lem laws n event e few =
    let ts = topics_of (suc n) event.topics in
    let few' : length ts < 64 = omega (arith, length-topics_of (suc n) event.topics) in
    let small : length ts % u32_mod ≡ length ts = omega arith in
    rw (push_all_lem (suc n) event.topics [], small)
      (deposit_event_lem laws ts n event.encoding e few'
        (topics_of-AllOfLength (suc n) event.topics))
