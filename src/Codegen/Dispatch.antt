-- ===== src/Codegen/Dispatch.antt =====
-- The decoders that the dispatch generator writes, crates/ink/codegen/src/generator/dispatch.rs, as
-- what the generated code computes. A message or a constructor has one value of `Dispatchable` in
-- place of its generated items; `cfg` attributes are left out.
pub mod Execute
pub mod Reach
pub mod Accepted
pub mod Payment
pub mod Checks
pub mod Runs
mod Tests
use ink.Prelude.{
  ℕ, ◌∷◌, ◌||◌, Bool, true, false, Option, none, some, List, [], ◌++◌, Bytes, bytes_eq, ◌==◌,
  if◌then◌else◌,
}
use ink.Prelude.Result.{Result, ok, err}
use ink.Ir.Selector.{Selector, to_bytes}
use ink.Ir.Callable.{
  Callable, CallableWithSelector, ItemImpl, TraitPath, has_wildcard_selector, iter_messages,
  iter_constructors,
}
use ink.Ir.ItemMod.{Item, impl_blocks}

-- `DispatchError` of crates/ink/src/reflect/dispatch.rs
pub data DispatchError : Type 0 where
  invalid_selector unknown_selector invalid_parameters could_not_read_input : DispatchError
  paid_unpayable_message : DispatchError

-- `DispatchableMessageInfo` and `DispatchableConstructorInfo`, with whether the selector is a
-- wildcard. `F` is what a callable is, and `Args` has the values of every type of input.
pub record Dispatchable (F Args : Type 0) : Type 0 where
  pub selector : Selector
  pub wildcard : Bool
  pub payable : Bool
  pub decode_input : Bytes → Option Args
  pub function : F

-- A variant of the decoder's enum: its number and its input.
pub record Decoded (F Args : Type 0) : Type 0 where
  pub index : ℕ
  pub info : Dispatchable F Args
  pub args : Args

-- `<[u8; 4] as Decode>::decode`, with what is left of the input.
abbrev pub first_four : Bytes → Option (Bytes × Bytes)
first_four (a ∷ b ∷ c ∷ d ∷ rest) = some (a ∷ b ∷ c ∷ d ∷ [], rest)
first_four _ = none

module _ {F Args : Type 0} where
  -- `any_message_accepts_payment` and `any_constructor_accepts_payment`
  unfoldable pub any_accepts_payment : List (Dispatchable F Args) → Bool
  any_accepts_payment [] = false
  any_accepts_payment (d ∷ ds) = d.payable || any_accepts_payment ds

  -- `query_wildcard_message` and `query_wildcard_constructor`, with the callable at that index.
  unfoldable pub query_wildcard : ℕ → List (Dispatchable F Args) → Option (ℕ × Dispatchable F Args)
  query_wildcard n [] = none
  query_wildcard n (d ∷ ds) =
      let later = query_wildcard (ℕ.suc n) ds in if d.wildcard then some (n, d) else later

  -- The arms `MESSAGE_n => …` of the generated `match`: the first whose constant is the selector.
  unfoldable pub select : Bytes → ℕ → List (Dispatchable F Args) → Option (ℕ × Dispatchable F Args)
  unfolding to_bytes
  select key n [] = none
  select key n (d ∷ ds) =
      let later = select key (ℕ.suc n) ds in
      if to_bytes d.selector == key then some (n, d) else later

  -- The right-hand side of an arm.
  unfoldable pub decode_arm :
      ℕ → Dispatchable F Args → Bytes → Result (Decoded F Args) DispatchError
  decode_arm n d rest = elim (d.decode_input rest) [
    | none ↦ err invalid_parameters
    | some args ↦ ok (record { index = n; info = d; args = args })
  ]

  -- The arm `_invalid => …`.
  abbrev pub decode_wildcard :
      Option (ℕ × Dispatchable F Args) → Bytes → Result (Decoded F Args) DispatchError
  decode_wildcard none rest = err unknown_selector
  decode_wildcard (some (n, d)) rest = decode_arm n d rest

  abbrev pub decode_match :
      List (Dispatchable F Args)
      → Option (ℕ × Dispatchable F Args)
      → Bytes
      → Result (Decoded F Args) DispatchError
  decode_match ds (some (n, d)) rest = decode_arm n d rest
  decode_match ds none rest = decode_wildcard (query_wildcard 0 ds) rest

  -- `decode_dispatch` of `__ink_MessageDecoder` and of `__ink_ConstructorDecoder`
  unfoldable pub decode_dispatch :
      List (Dispatchable F Args) → Bytes → Result (Decoded F Args) DispatchError
  unfolding select decode_arm query_wildcard
  decode_dispatch ds input = elim (first_four input) [
    | none ↦ err invalid_selector
    | some (key, rest) ↦ decode_match ds (select key 0 ds) rest
  ]

-- `TraitMessageInfo` of crates/ink/src/reflect/trait_def/info.rs
pub record TraitMessageInfo : Type 0 where
  pub selector : Selector
  pub payable : Bool

-- What the Rust functions are is a parameter, as is the registry of the traits, which is asked by the
-- trait's path and the message's name, from which its local id is computed.
module _ (selector_of : ItemImpl → Callable → Selector)
    (registry : TraitPath → Bytes → TraitMessageInfo) {F Args : Type 0}
    (inputs : ItemImpl → Callable → Bytes → Option Args) (functions : ItemImpl → Callable → F) where
  -- One message in `generate_dispatchable_message_infos`: of an inherent implementation, or of a
  -- trait's.
  abbrev pub message_info : ItemImpl → CallableWithSelector → Dispatchable F Args
  message_info i c = elim i.trait_path [
    | none ↦ record {
      selector = c.composed_selector;
      wildcard = has_wildcard_selector c.callable;
      payable = c.callable.is_payable;
      decode_input = inputs i c.callable;
      function = functions i c.callable;
    }
    | some path ↦ record {
      selector = (registry path c.callable.ident).selector;
      wildcard = has_wildcard_selector c.callable;
      payable = (registry path c.callable.ident).payable;
      decode_input = inputs i c.callable;
      function = functions i c.callable;
    }
  ]

  abbrev pub infos_of_impl : ItemImpl → List CallableWithSelector → List (Dispatchable F Args)
  infos_of_impl i [] = []
  infos_of_impl i (c ∷ cs) = message_info i c ∷ infos_of_impl i cs

  abbrev pub infos_of_blocks : List ItemImpl → List (Dispatchable F Args)
  infos_of_blocks [] = []
  infos_of_blocks (i ∷ is) = infos_of_impl i (iter_messages selector_of i) ++ infos_of_blocks is

  -- The messages in the order in which they are numbered.
  unfoldable pub compose_messages_with_ids : List Item → List (Dispatchable F Args)
  compose_messages_with_ids items = infos_of_blocks (impl_blocks items)

  abbrev pub constructor_info : ItemImpl → CallableWithSelector → Dispatchable F Args
  constructor_info i c = record {
    selector = c.composed_selector;
    wildcard = has_wildcard_selector c.callable;
    payable = c.callable.is_payable;
    decode_input = inputs i c.callable;
    function = functions i c.callable;
  }

  abbrev pub constructors_of_impl :
      ItemImpl → List CallableWithSelector → List (Dispatchable F Args)
  constructors_of_impl i [] = []
  constructors_of_impl i (c ∷ cs) = constructor_info i c ∷ constructors_of_impl i cs

  abbrev pub constructors_of_blocks : List ItemImpl → List (Dispatchable F Args)
  constructors_of_blocks [] = []
  constructors_of_blocks (i ∷ is) =
      constructors_of_impl i (iter_constructors selector_of i) ++ constructors_of_blocks is

  unfoldable pub compose_constructors_with_ids : List Item → List (Dispatchable F Args)
  compose_constructors_with_ids items = constructors_of_blocks (impl_blocks items)
