-- ===== src/Ir/ChainExtension/Tests.antt =====
-- The theorem on chain extensions at a concrete trait.
use ink.Prelude.{◌≡◌, refl, true, false, some, [], ◌∷◌, nat_eq, bytes_eq}
use ink.Prelude.HashMap
use ink.Prelude.Result.{ok}
use ink.Ir.Attrs.{
  AttributeArg, InkAttribute, ensure_no_duplicate_args, kind, kind_beq, frag_beq, contains_frag,
  check_args, from_expanded,
}
use ink.Ir.Attrs.Sanitize.{
  Attribute, sanitize_attributes, partition_attributes, ensure_first, ensure_no_conflicts,
  ensure_no_duplicate_attrs, is_handle_status,
}
use ink.Ir.ChainExtension.{
  TraitItemType, TraitItemFn, TraitItem, ItemTrait, ChainExtension, error_code_name,
  analyse_properties, analyse_error_code, analyse_chain_extension_method, analyse_methods,
  add_method, analyse_loop, analyse_items, try_from,
}
use ink.Ir.ChainExtension.Accepted.{Accepted, try_from-Accepted}

-- `#[ink(extension = 7)]`
abbrev extension_attribute : InkAttribute
extension_attribute = record {
  args = record { ast = b'e' ∷ []; arg = AttributeArg.extension 7 } ∷ [];
}

abbrev read_method : TraitItemFn
read_method = record {
  ident = b'r' ∷ [];
  has_default = false;
  is_const = false;
  is_async = false;
  is_unsafe = false;
  has_abi = false;
  is_variadic = false;
  generic_params = 0;
  has_receiver = false;
  attrs = Attribute.ink_attr extension_attribute ∷ [];
}

abbrev error_type : TraitItemType
error_type = record {
  ident = error_code_name;
  generic_params = 0;
  bounds = 0;
  default_type = some (b'E' ∷ []);
}

abbrev extension_trait : ItemTrait
extension_trait = record {
  has_ink_identifier = false;
  is_unsafe = false;
  is_auto = false;
  generic_params = 0;
  is_public = true;
  supertraits = 0;
  items = TraitItem.type_item error_type ∷ TraitItem.fn_item read_method ∷ [];
}

abbrev extension : ChainExtension
extension = record {
  item = extension_trait;
  error_code = error_type;
  methods = record { item = read_method; id = 7; handle_status = true } ∷ [];
}

extension_accepted : try_from extension_trait ≡ ok extension
unfolding try_from analyse_properties analyse_items analyse_loop analyse_error_code analyse_methods
    analyse_chain_extension_method add_method sanitize_attributes partition_attributes
    ensure_no_duplicate_attrs from_expanded ensure_no_duplicate_args check_args contains_frag
    frag_beq kind_beq kind ensure_first ensure_no_conflicts is_handle_status HashMap.get
    HashMap.insert
extension_accepted = refl

try_from-Accepted_example :
    (extension_trait ≡ extension_trait)
    × Accepted extension_trait error_type
        (record { item = read_method; id = 7; handle_status = true } ∷ [])
try_from-Accepted_example = try_from-Accepted extension_trait extension extension_accepted
