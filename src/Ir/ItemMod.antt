-- ===== src/Ir/ItemMod.antt =====
-- The checks of a contract module, crates/ink/ir/src/ir/item_mod.rs and item/mod.rs. Spans and texts
-- of errors are left out. `selector_of` is `compose_selector` where it returns.
pub mod Quantity
pub mod Overlap
pub mod Wildcard
pub mod Split
use ink.Prelude.{
  ℕ, ◌%◌, ◌^◌, Bool, true, false, ◌||◌, Option, none, some, List, [], ◌∷◌, ◌++◌, length, Bytes,
  bytes_eq, leb, nat_beq, if◌then◌else◌, Outcome, ret, panic,
}
use ink.Prelude.HashMap
use ink.Prelude.HashMap.{HashMap}
use ink.Prelude.Result.{Result, ok, err, ◌>>=◌, ◌>>◌}
use ink.Ir.Selector.{Selector, to_bytes}
use ink.Ir.Callable.{
  Callable, CallableWithSelector, ItemImpl, has_wildcard_selector, has_wildcard_complement_selector,
  iter_messages, iter_constructors,
}

pub data InkItem : Type 0 where
  storage event : InkItem
  impl_block : ItemImpl → InkItem

pub data Item : Type 0 where
  ink_item : InkItem → Item
  rust_item : Item

pub data Error : Type 0 where
  missing_storage multiple_storage missing_message missing_constructor : Error
  overlapping_messages overlapping_constructors : Selector → Error
  overlapping_wildcard_messages missing_other_message no_complement : Error
  too_many_messages complement_without_wildcard overlapping_wildcard_constructors : Error

-- `filter` and `count` of `ensure_storage_struct_quantity`
abbrev pub count_storage : List Item → ℕ
count_storage [] = 0
count_storage (ink_item storage ∷ items) = ℕ.suc (count_storage items)
count_storage (ink_item event ∷ items) = count_storage items
count_storage (ink_item (impl_block _) ∷ items) = count_storage items
count_storage (rust_item ∷ items) = count_storage items

unfoldable pub ensure_storage_struct_quantity : List Item → Result (Unit {0}) Error
ensure_storage_struct_quantity items =
    if nat_beq (count_storage items) 0
    then err missing_storage
    else if leb 2 (count_storage items)
    then err multiple_storage
    else ok tt

-- `filter_map(map_ink_item).filter_map(filter_map_impl_block)`
abbrev pub impl_blocks : List Item → List ItemImpl
impl_blocks [] = []
impl_blocks (ink_item (impl_block i) ∷ items) = i ∷ impl_blocks items
impl_blocks (ink_item storage ∷ items) = impl_blocks items
impl_blocks (ink_item event ∷ items) = impl_blocks items
impl_blocks (rust_item ∷ items) = impl_blocks items

abbrev pub is_nonempty : List CallableWithSelector → Bool
is_nonempty [] = false
is_nonempty (_ ∷ _) = true

module _ (selector_of : ItemImpl → Callable → Selector) where
  abbrev pub any_message : List ItemImpl → Bool
  any_message [] = false
  any_message (i ∷ is) = is_nonempty (iter_messages selector_of i) || any_message is

  abbrev pub any_constructor : List ItemImpl → Bool
  any_constructor [] = false
  any_constructor (i ∷ is) = is_nonempty (iter_constructors selector_of i) || any_constructor is

  unfoldable pub ensure_contains_message : List Item → Result (Unit {0}) Error
  ensure_contains_message items =
      if any_message (impl_blocks items) then ok tt else err missing_message

  unfoldable pub ensure_contains_constructor : List Item → Result (Unit {0}) Error
  ensure_contains_constructor items =
      if any_constructor (impl_blocks items) then ok tt else err missing_constructor

-- The map of the selectors seen, keyed by their bytes.
abbrev pub Seen : Type 0
Seen = HashMap Bytes Callable

-- One of the inner loops of `ensure_no_overlapping_selectors`.
unfoldable pub enter_all : (Selector → Error) → List CallableWithSelector → Seen → Result Seen Error
unfolding to_bytes
enter_all overlapping [] seen = ok seen
enter_all overlapping (c ∷ cs) seen = elim (HashMap.get (to_bytes c.composed_selector) seen) [
  | some _ ↦ err (overlapping c.composed_selector)
  | none ↦ enter_all overlapping cs (HashMap.insert (to_bytes c.composed_selector) c.callable seen)
]

module _ (selector_of : ItemImpl → Callable → Selector) where
  -- The outer loop: the messages of a block, then its constructors.
  unfoldable pub enter_blocks : List ItemImpl → Seen → Seen → Result (Unit {0}) Error
  enter_blocks [] messages constructors = ok tt
  enter_blocks (i ∷ is) messages constructors = do
    messages' ← enter_all overlapping_messages (iter_messages selector_of i) messages
    constructors' ←
        enter_all overlapping_constructors (iter_constructors selector_of i) constructors
    enter_blocks is messages' constructors'

  unfoldable pub ensure_no_overlapping_selectors : List Item → Result (Unit {0}) Error
  ensure_no_overlapping_selectors items = enter_blocks (impl_blocks items) [] []

-- The messages seen by `ensure_valid_wildcard_selector_usage`.
pub record Usage : Type 0 where
  pub wildcard_selector : Option Callable
  pub other_messages : List Callable

unfoldable pub scan_messages : List CallableWithSelector → Usage → Result Usage Error
scan_messages [] u = ok u
scan_messages (c ∷ cs) u =
    let as_other =
      scan_messages cs (record u { other_messages = u.other_messages ++ c.callable ∷ [] }) in
    let as_wildcard = scan_messages cs (record u { wildcard_selector = some c.callable }) in
    if has_wildcard_selector c.callable
    then elim u.wildcard_selector [
      | none ↦ as_wildcard
      | some _ ↦ err overlapping_wildcard_messages
    ]
    else as_other

abbrev pub any_complement : List Callable → Bool
any_complement [] = false
any_complement (c ∷ cs) = has_wildcard_complement_selector c || any_complement cs

-- `other_messages.len() as u32`, and the three arms of its `match`. The second arm reads the first
-- message.
abbrev pub check_others : List Callable → ℕ → Result (Unit {0}) Error
check_others [] n = err missing_other_message
check_others (c ∷ cs) n =
    if nat_beq n 0
    then err missing_other_message
    else if nat_beq n 1
    then (if has_wildcard_complement_selector c then ok tt else err no_complement)
    else err too_many_messages

unfoldable pub check_usage : Usage → Result (Unit {0}) Error
check_usage u = elim u.wildcard_selector [
  | some _ ↦ check_others u.other_messages (length u.other_messages % 2 ^ 32)
  | none ↦ if any_complement u.other_messages then err complement_without_wildcard else ok tt
]

-- The loop over the constructors of one block: its `wildcard_selector` is a new variable.
unfoldable pub scan_constructors : List CallableWithSelector → Bool → Result (Unit {0}) Error
scan_constructors [] found = ok tt
scan_constructors (c ∷ cs) found =
    let skip = scan_constructors cs found in
    let take = scan_constructors cs true in
    if has_wildcard_selector c.callable
    then (if found then err overlapping_wildcard_constructors else take)
    else skip

module _ (selector_of : ItemImpl → Callable → Selector) where
  -- The check of the messages stands inside the loop: it is made after each block.
  unfoldable pub scan_blocks : List ItemImpl → Usage → Result (Unit {0}) Error
  scan_blocks [] u = ok tt
  scan_blocks (i ∷ is) u = do
    u' ← scan_messages (iter_messages selector_of i) u
    check_usage u'
    scan_constructors (iter_constructors selector_of i) false
    scan_blocks is u'

  unfoldable pub ensure_valid_wildcard_selector_usage : List Item → Result (Unit {0}) Error
  ensure_valid_wildcard_selector_usage items =
      scan_blocks (impl_blocks items) (record { wildcard_selector = none; other_messages = [] })

  -- The five checks of `TryFrom<syn::ItemMod> for ItemMod`, in order.
  unfoldable pub ensure_valid : List Item → Result (Unit {0}) Error
  ensure_valid items = do
    ensure_storage_struct_quantity items
    ensure_contains_message selector_of items
    ensure_contains_constructor selector_of items
    ensure_no_overlapping_selectors selector_of items
    ensure_valid_wildcard_selector_usage items

-- `ItemMod::storage` asserts that there is exactly one storage item.
unfoldable pub storage_item : List Item → Outcome InkItem
storage_item items = if nat_beq (count_storage items) 1 then ret storage else panic
