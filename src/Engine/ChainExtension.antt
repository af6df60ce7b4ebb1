-- ===== src/Engine/ChainExtension.antt =====
-- The registry of chain extensions, crates/engine/src/chain_extension.rs.
use ink.Prelude.{ℕ, Option, none, some, List, [], ◌∷◌, ◌++◌, nat_eq}
use ink.Prelude.HashMap
use ink.Prelude.HashMap.{HashMap}
use ink.Engine.Host.{Bytes}

-- A `dyn ChainExtension`, which may keep a state of its own: its answer is a function of the inputs
-- of the earlier calls, of this input, and of the output buffer that it is handed.
pub record ChainExtension : Type 0 where
  pub func_id : ℕ
  pub respond : List Bytes → Bytes → Bytes → ℕ × Bytes
  pub earlier : List Bytes

pub record ChainExtensionHandler : Type 0 where
  pub registered : HashMap ℕ ChainExtension
  pub output : Bytes

abbrev pub new : ChainExtensionHandler
new = record { registered = []; output = [] }

unfoldable pub reset : ChainExtensionHandler → ChainExtensionHandler
reset h = record { registered = []; output = [] }

-- A second extension of one id takes the place of the first.
unfoldable pub register : ChainExtension → ChainExtensionHandler → ChainExtensionHandler
register extension h = record h {
  registered = HashMap.insert extension.func_id extension h.registered;
}

-- `eval`: `none` is `Error::UnregisteredChainExtension`; the buffer is cleared in either case.
unfoldable pub eval : ℕ → Bytes → ChainExtensionHandler → Option (ℕ × Bytes) × ChainExtensionHandler
eval func_id input h = elim (HashMap.get func_id h.registered) [
  | none ↦ (none, record h { output = [] })
  | some extension ↦
      let (status_code, output) = extension.respond extension.earlier input [] in
      (
        some (status_code, output),
        record {
          registered =
              HashMap.insert func_id
                (record extension { earlier = extension.earlier ++ input ∷ [] }) h.registered;
          output = output;
        },
      )
]
