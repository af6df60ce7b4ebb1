-- ===== src/Lib.antt =====
-- ink!, a language for smart contracts embedded in Rust: its own core logic, and what is true of it.
--
-- A contract is a Rust module. The macros turn it into an intermediate representation, check that,
-- and generate code from it; the generated code calls an environment, which is the chain's host
-- functions or, in tests, an engine that plays their part. The storage of a contract is a map from
-- keys to bytes, and the metadata describes where its parts lie.
--
--   Prelude     shared names, tests, lists, panics, results, maps and lists without repetition
--   Alloc       crates/allocator/src/bump.rs, the allocator of contracts
--   Engine      crates/engine/src, the engine: Database (database.rs), Context (exec_context.rs),
--               DebugInfo and TestApi (test_api.rs), ChainExtension (chain_extension.rs), State, Ext
--               and Properties (ext.rs); Host is what it calls of other crates, and Steps are its
--               runs
--   Env         crates/env: Backend and Topics (engine/off_chain/impls.rs, event.rs), CallData
--               (call/execution_input.rs, engine/off_chain/call_data.rs), and Mapping and Lazy
--               (crates/storage/src/lazy), which call Backend, which calls Engine.Ext; Arithmetic
--               (arithmetic.rs), where `num_traits::checked_pow` is a parameter; OnChain
--               (engine/on_chain/impls.rs), what the entry points call, with Engine as the host that
--               answers
--   Buffer      crates/env/src/engine/on_chain/buffer.rs, the static buffer
--   Key         crates/primitives/src/key.rs, storage keys
--   Metadata    crates/metadata/src/layout: the layout and its validation (validate.rs)
--   Ir          crates/ink/ir/src/ir: Selector (selector.rs), Attrs (attrs.rs), Callable, Method
--               and ItemImpl (item_impl), Item (item, event), ItemMod
--               (item_mod.rs), ChainExtension (chain_extension.rs), TraitDef (trait_def/item)
--   Codegen     crates/ink/codegen/src/generator/dispatch.rs: what the generated decoders and entry
--               points compute (Dispatch, Dispatch.Execute), on Env.OnChain, for the messages of an
--               Ir.ItemMod
--   Contracts   integration-tests/multisig/lib.rs, a wallet of several owners: its messages
--               (Multisig), those that call (Multisig.Invoke), and its runs (Multisig.Steps);
--               integration-tests/erc20/lib.rs, a token (Erc20), and its runs (Erc20.Steps)
--
-- State is passed explicitly: a method on `&mut self` is a function that returns the new state, of
-- the same name. A panic is the value `panic` of `Outcome` and an error a value of `Result`; what the
-- state is after a panic is not kept. Numbers are natural numbers, and where the source wraps, checks
-- or casts it is written out. The arithmetic of `transfer` is that of a build that checks for
-- overflow.
--
-- The hash functions, the SCALE codec and the generated encodings are parameters. The laws that the
-- theorems use of them are records (Engine.Host.HostLaws, Env.Backend.StorableLaws): the codec reads
-- back what it writes, and the hash does not collide. Engine.Demo has an instance.
--
-- In the wallet and the token a `Mapping` is a finite map, and in the wallet the call of another
-- contract is a parameter that is given the wallet as it is in the storage and returns it as it
-- leaves it: a call may come back.
--
-- The static buffer has its usual 16384 bytes.
--
-- Loops are recursion on lists. The one recursion on fuel is that of `chunks`, on the length of the
-- input, which bounds the number of pieces.
--
-- Not modelled: the parsing of tokens and the other code generation, whose subject is Rust's syntax;
-- the rest of the on-chain environment, which is calls of external functions; the client for
-- end-to-end tests; spans and texts of errors.
pub mod Prelude
pub mod Alloc
pub mod Engine
pub mod Ir
pub mod Key
pub mod Buffer
pub mod Metadata
pub mod Env
pub mod Codegen
pub mod Contracts
