-- ===== src/Lib.antt =====
-- A verification library for hap-resigner, which signs a HarmonyOS application package (HAP) again
-- with the developer's own key.
--
-- A HAP is a ZIP file with a signing block between its entries and its central directory. `sign_hap`
-- reads the layout of the input, aligns the archive and computes the native code signatures when it
-- has runnable files and no property block, digests what is left and right of the signing block,
-- signs the digest, and writes the parts around a new signing block.
--
-- The files and the code that they model:
-- - Format: src/hap/format.rs, the reader. `Format.parse_hap` is `parse_hap`; its entry loop is
--   `parse_entries`, with the rounds left and the index.
-- - Block: src/hap/signing_block.rs and the encoders of src/hap/sign.rs. A buffer that is extended is
--   the value that it has in the end, `try_fold` and loops are structural recursion.
-- - Digest: src/hap/digest.rs. Cms: src/hap/cms.rs. SignErrors: the two error enums.
-- - CodeSign: src/hap/code_sign.rs; Sizes, Merkle, Verity and Segments hold the encoders, Entries and
--   Archive the passes over the ZIP file, Owner the profile's owner, Property the property block.
-- - Sign: `sign_hap` of src/hap/sign.rs, in the steps that its body has.
-- - Materials: src/materials/mod.rs, the signing identity out of its files. Profile is
--   src/materials/profile.rs, Store src/materials/store.rs, Manager src/materials/manager.rs with the
--   phases of `prepare_materials_with_api` in Manager.Steps; Remote is the AGC client as its
--   `MaterialApi`.
-- - Files: the calls of `std::fs` and `std::path` that the store makes, on a list of paths with their
--   files and directories. Every call takes the next fault of a list that the outside chooses, so a
--   theorem about any list holds wherever a call fails. Effect: fallible code over a state, its
--   post-conditions, and their rules.
-- - Agc: src/agc/client.rs. Json is the redaction of replies, Messages what a reply says, Client the
--   decisions and Client.Calls the calls, over a service with a state. Auth is src/agc/auth.rs, the
--   login; Auth.Callback is the browser's callback: a connection is the outcomes of its reads, and a
--   listener what it accepts before the deadline. Http is
--   the texts of src/agc/http.rs, with the length of the text for the fuel of the redaction.
-- - Device: src/device/hdc.rs, over a runner with a state. Strings: the methods of `str` that Agc and
--   Device use.
-- - Cli: the sign command of src/cli.rs, with the files that it reads and writes.
-- - App: State is src/app/state.rs, Workflow the threads of src/app/workflow.rs (over Trace: the events
--   that a thread sends, with its result), Devices and Gui the controller of src/app/gui.rs. A handler
--   returns the threads that it starts, and Gui.Steps is the system of the interface and its threads:
--   the user acts, or the next event of any thread is received. Runs applies a thread's events.
-- - External: what the code calls of the crates sha2, cms, der, p256, x509-cert, serde_json and zip.
--   It is a record of types and functions that every definition above takes as an argument.
-- - Prelude: Boolean tests, lists over the native numbers, words, results, text.
-- - Tests: runs at concrete inputs, over a small stand-in for the crates.
--
-- Numbers, bounds and fuel: `usize` and `u64` are the native natural numbers below 2 ^ 64; each
-- `checked_` operation and each conversion to `u32` is written out with its failure. Plain additions
-- of the source are offsets into a slice that exists, which stay far below 2 ^ 64. A byte is a
-- number, a text its UTF-8 bytes. `chunks` has the length of the list for its fuel, and
-- `build_levels` the length of the leaf level, since each level is shorter than the one below.
--
-- Not modelled: the drawing of the user interface, the arguments of the command line and its
-- self-test, the reading of module.json (src/hap/info.rs), the network, the launch of the browser and
-- the binding of the login's listener, the hdc protocol, the texts and previews in the errors of the
-- AGC client, the system's credential store and the key generation (calls of crates alone), and the
-- copies of hdc and ylong under vendor. No other
-- program changes the material directory during a call of the store, and file names are UTF-8.
-- An archive is the list of what `by_index` returns for each index, and an entry's bytes are a
-- function of the limit to read. The signing time of a CMS is a fixed value of the parameter
-- record. A panic is no case of the model: where the source indexes the identity's first
-- certificate, the model reads an empty one if there is none; an identity that
-- `load_signing_identity` returns has one.
pub mod Prelude
pub mod External
pub mod SignErrors
pub mod Format
pub mod Digest
pub mod Cms
pub mod Block
pub mod CodeSign
pub mod Sign
pub mod Agc
pub mod App
pub mod Cli
pub mod Device
pub mod Effect
pub mod Files
pub mod Materials
pub mod Strings
pub mod Tests
