-- ===== src/Lib.antt =====
-- Gabbro, a password manager: the verified model of its Rust core (rust/src).
--
-- The program. A vault is a list of entries with folders and tombstones, held in memory while it is
-- unlocked (vault/session.rs over vault/entry.rs) and written to a `.gabbro` file
-- (vault/file_format.rs), whose header is authenticated with the body that crypto/vault_crypto.rs
-- seals. A virtual FIDO device speaks to the browser in 64-byte reports (ctaphid.rs), whose messages
-- ctap2.rs answers with the passkeys of the vault.
--
-- The files.
--   Prelude, Bytes, Bits, Utf8: shared lists, tests and results (Prelude/Chains chains them);
--     big-endian words; the bit operations on a byte; `str::from_utf8`.
--   Cursor: reading a slice with a moving position. A `Reader` is Rust's code over `data` and `pos`,
--     with the bytes from `pos` on in place of `data`; a slice out of range is the outcome `panic`.
--     Cursor/Laws has the rules by which readers compose.
--   FileFormat: rust/src/vault/file_format.rs. `to_bytes`, `header_aad`, `from_bytes`, `peek_version`
--     and the version checks bear the names of the functions; `read_vault` and the readers that it
--     calls are the body of `from_bytes` in order. The error texts are `FormatError`.
--   Crypto: rust/src/crypto/vault_crypto.rs over aes_gcm.rs, hkdf.rs and kdf.rs. `Primitives` are
--     Argon2id, HKDF and AES-GCM, and `IsSound` what is relied on of them; it has a toy instance in
--     Tests/Crypto. Each call takes the random bytes that Rust draws in it. Crypto/Sealing is the
--     vault under a passphrase, Crypto/Keys the vault with registered keys, whose master key seals
--     the body. Keys/Changes names the steps that a file takes, and Keys/Histories their sequences.
--   Serialization: rust/src/vault/serialization.rs, the older forms of a body, as changes of a JSON
--     value. `Serde` is serde_json with the derived code.
--   Vaults: the calls of rust/src/api/vault.rs that save, load and reseal a file, which join
--     Serialization, Crypto, FileFormat and Storage, and in Vaults/Session the calls of
--     rust/src/vault/session.rs that unlock a vault or change its keys, passphrase or alias.
--     `reseal_vault_file` is `reseal_vault_body` of rust/src/api/vault.rs.
--   Ctaphid: rust/src/ctaphid.rs. `handle_report` and its branches, `finish`, `init_response` and
--     `encode_message`; the device's state is the record `Ctaphid`.
--   Entry: rust/src/vault/entry.rs, the seven kinds of entry, `record_previous`, the credential blob
--     and the card constructor.
--   Calendar: the dates of rust/src/api/vault.rs, `days_to_ymd` and `days_from_ymd`, and the time
--     stamps over them. The loop over the years is a recursion on the days that are left, which get
--     fewer; the clock's seconds are an argument. Text is sliced in bytes, and a slice that Rust
--     panics on is `none`.
--   Edit: a field of an entry by its key, as rust/src/api/vault.rs sets and removes it for a sync.
--   Update: `update_entry` of rust/src/api/vault.rs and the calls of rust/src/vault/session.rs that
--     change one entry: attachments and the restore of a previous value.
--   Ctap2: rust/src/ctap2.rs, with the passkeys of rust/src/api/passkey_bridge.rs and the data that
--     rust/src/crypto/webauthn.rs signs. `Platform` is CBOR, SHA-256 and P-256, `Fresh` what a
--     registration draws, and `Consents` the answers of the user. Requests parses and performs,
--     Handling joins the two by the user's consent, Responses has the bytes of an answer; an answer
--     is a status, or what the response is built from. It reads and changes the `World` of Session.
--   Uhid: rust/src/uhid.rs, the events between the device and the kernel, with `read_event` of
--     rust/src/passkey_daemon.rs.
--   Daemon: the pump of rust/src/passkey_daemon.rs, a round of its loop with the answers of the app
--     between two rounds. It joins Uhid and Ctaphid.
--   Csv: rust/src/import/csv.rs. A text is the list of its characters, and the loops over characters
--     are folds of one step over the variables that the loop has. Csv/Trimming describes what is to
--     be read of a field, and Csv/Quoting of a line.
--   Files: the calls of `std::fs` that rust/src/vault/io.rs makes, each with all its outcomes, and
--     programs over them. A call may fail at any time, and the machine may stop between any two; then
--     a file that was not synced has any content. Names change on the disk in the order of the
--     renames. Files/Rules shows what every run keeps, Files/Runs the run in which nothing fails.
--   Storage: rust/src/vault/io.rs on Unix: the atomic write, the safety copy, saves and restores.
--     Nothing else changes the files in the meantime.
--   Session: rust/src/vault/session.rs. `World` holds the option in VAULT_SESSION and the body that
--     the file holds. A write that fails may have put the new file in place (`WriteEnd`), since
--     `write_vault` renames it first and checks and copies it then. `change_and_save` is the shape
--     that the saving calls share: lock, change, build the body, write. Folders, Deletion and Records
--     (the history of an entry) are the calls on these, with `delete_entry` of
--     rust/src/api/vault.rs.
--   Merge: `merge_entry_pair` of rust/src/vault/session.rs. The methods of `FieldMerger` are actions
--     that pass the merger on. Items is `merge_custom`, `merge_attachments` and the fields of a
--     custom entry, which have one body in the model and differ by an `ItemKind`; Pair has the seven
--     kinds of entry, and Finish the metadata. Two devices that sync call it on their two versions.
--   Sync: `do_merge` of two vaults, which calls the merge of two entries for each entry they share
--     and collects the `MergeSummary`; `do_fast_merge` and `do_apply_sync_decisions` resolve it, and
--     Sync/Calls has the calls of the session around them. Sync/Equality is the derived equality of
--     rust/src/vault/entry.rs. A hash map is an association list; the tombstones of a merge come out
--     in the order of the session's, then the new ones, where Rust's order is not fixed.
--   Tests: the theorems at concrete inputs, and runs of the code.
--
-- Numbers and bounds. Integers are natural numbers with their wrap-around written out; `usize` has
-- 64 bits; an `i64` is its bit pattern. `chunks` runs on fuel, the length of the slice, which is
-- enough because each chunk takes a byte at least. The clock, and the outcome of writing the file,
-- are arguments (`Env`); the base64 encoder is one of `merge_entry_pair`, and with its decoder one of
-- the calls of a sync. A poisoned lock is not modelled, nor the zeroizing of memory.
--
-- Not modelled: the ciphers, serde_json, CBOR and P-256, which are other crates and stand as
-- parameters; the JSON requests of Android's credential manager, the imports other than CSV, the
-- exports with their hash, generators and autotype, the bridge to Dart, and the user interface.
-- `Session` takes the outcome of a write from outside; what that write does is in Vaults.
pub mod Prelude
pub mod Bytes
pub mod Bits
pub mod Utf8
pub mod Cursor
pub mod FileFormat
pub mod Ctaphid
pub mod Calendar
pub mod Entry
pub mod Edit
pub mod Session
pub mod Serialization
pub mod Merge
pub mod Sync
pub mod Update
pub mod Uhid
pub mod Daemon
pub mod Ctap2
pub mod Crypto
pub mod Csv
pub mod Files
pub mod Storage
pub mod Vaults
mod Tests
