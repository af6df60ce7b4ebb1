-- ===== src/Env/Topics.antt =====
-- Events of the off-chain environment: the builders of topics of crates/env/src/event.rs and of
-- crates/env/src/engine/off_chain/impls.rs, and `emit_event`. Which topics an event has is
-- generated code: an event is the encodings of its topics and its own.
pub mod Emit
use Prim.Native.Nat.{min}
use ink.Prelude.{
  ℕ, ◌%◌, ◌^◌, Bool, true, false, leb, Option, none, some, List, [], ◌∷◌, ◌++◌, Bytes, length, take,
  drop, replicate, flatten, Outcome, if◌then◌else◌,
}
use ink.Engine.Host.{Host, u32_mod}
use ink.Engine.State.{Engine}
use ink.Engine.Ext.Events.{deposit_event}

-- The backend, `TopicsBuilder` of off_chain/impls.rs.
pub record TopicsBuilder : Type 0 where
  pub topics : List Bytes

-- `Hash::CLEAR_HASH`, for a hash type of `hash_size` bytes
abbrev pub clear_hash : ℕ → Bytes
clear_hash hash_size = replicate hash_size 0

-- `result[..source.len()].copy_from_slice(source)`
abbrev pub overwrite : Bytes → Bytes → Bytes
overwrite source result = source ++ drop (length source) result

module _ ⦃host : Host⦄ (hash_size : ℕ) where
  -- The topic that is made of an encoding: padded with zeros, or hashed if it is too long.
  unfoldable pub topic_of : Bytes → Bytes
  topic_of encoded =
      let hash_output = host.blake2b_256 encoded in
      if leb (length encoded) hash_size
      then overwrite encoded (clear_hash hash_size)
      else overwrite (take (min (length hash_output) hash_size) hash_output) (clear_hash hash_size)

  unfoldable pub push_topic : Bytes → TopicsBuilder → TopicsBuilder
  unfolding topic_of
  push_topic encoded b = record { topics = b.topics ++ topic_of encoded ∷ [] }

  -- `TopicsBuilder::push_topic` of event.rs: no topic is a zero byte.
  unfoldable pub push_option : Option Bytes → TopicsBuilder → TopicsBuilder
  unfolding push_topic
  push_option (some topic) b = push_topic topic b
  push_option none b = push_topic (0 ∷ []) b

  abbrev pub push_all : List (Option Bytes) → TopicsBuilder → TopicsBuilder
  push_all [] b = b
  push_all (t ∷ ts) b = push_all ts (push_option t b)

  unfoldable pub output : TopicsBuilder → Bytes
  output b = host.encode_compact_u32 (length b.topics % u32_mod) ++ flatten b.topics

  -- The encoded topics of the event, in order, and its own encoding.
  pub record Event : Type 0 where
    pub topics : List (Option Bytes)
    pub encoding : Bytes

  unfoldable pub emit_event : Event → Engine → Outcome Engine
  unfolding output
  emit_event event e =
      deposit_event (output (push_all event.topics (record { topics = [] }))) event.encoding e
