-- ===== src/Lib.antt =====
-- sshvault: end-to-end-encrypted sync of an SSH workflow.
--
-- A client keeps its records (hosts, snippets, forwards, keys) in an append-only log of sealed
-- entries; a relay stores the entries of a vault without being able to read them and hands them to
-- the vault's devices. Each device folds the entries that it can open into one state.
--
-- Which file models which part:
--   Record, Record/Values    src/record.rs: clocks, kinds, fields, snapshots, deletion
--   Record/Payloads, Reading, Fields
--                            src/record.rs: the typed payloads, how they are written and read,
--                            fields_from_payload and payload
--   OrdMap                   BTreeMap and HashMap, as association lists in key order
--   Merge                    src/merge.rs: merge, merge_all, live
--   Proto, Proto/Message     src/proto.rs: messages, signed envelope, signing_message; the time
--                            window test of verify in src/relay.rs
--   Relay/Db                 the tables of migrate in src/relay.rs and its SQL statements
--   Relay/Handler            replies and errors; what was written before an error stays written
--   Relay/Auth               verify, mark_seen and the decoding helpers
--   Relay/Lifecycle          enroll, approve, revoke, rotate, recover
--   Relay/Shares             share_grant, share_rotate, shares
--   Relay/Log                push, pull, ws, notify
--   Relay/Views              devices, wrapped
--   Relay/Requests           the routes of serve: any sequence of requests, each at its own time
--   Vault/Frames             src/vault.rs: the frames of log.bin
--   Vault/Keyring            src/vault.rs: keys per share, key lists, opening entries
--   Vault/Store              src/vault.rs: metadata, clocks, snapshots, the log, remote entries
--   Vault/Keys               src/vault.rs: set_vault_key, rotate and the default share's key list
--   Vault/Guard              src/vault.rs: validate_payload
--   Vault/Edit               src/vault.rs: find, add, add_in, edit, remove, raw_entries_tagged
--   Vault/Listing            src/vault.rs: list, resolve_share, share_names
--   Vault/Transfer           src/vault.rs: export_json, import_json
--   Vault/Creation           src/vault.rs: create_with_keys, derive_kek
--   Crypto                   src/crypto.rs: sealed and wrapped blobs, keys of the phrase
--   Sync, Sync/Daemon        src/sync.rs: sync_once and heal_shares; round, transient, the backoff
--                            and the messages of syncd
--   Device, Device/Operations
--                            src/device.rs: short codes; approve, revoke, revoke_and_rotate,
--                            create_share, share_add, share_remove
--   Device/Joining           src/device.rs: enroll_and_wait; src/sync.rs: enroll
--   Sshconfig                src/sshconfig.rs: forward specs, rendering, the Include line, apply
--   Prelude                  lists, texts, white space, digits, orders
--   Examples                 each theorem at a concrete input
--
-- The parts meet where the vault folds opened entries with Merge, where the relay checks the
-- envelope of Proto before each handler, where a sync round pushes the vault's entries and applies
-- what was pulled, where devices wrap key lists with Crypto, and where hosts that passed the vault's
-- check are rendered by Sshconfig.
--
-- Numbers are natural numbers. A timestamp is the 64-bit pattern of an i64, whose arithmetic wraps
-- as in a release build; a pull's cursor is compared as the i64 that it is bound as; the Lamport
-- counter wraps at 2^64; the length of a frame is a u32. A Uuid is the number that its bytes
-- spell. Texts are UTF-8 bytes. Loops on fuel: the frames of a log, with one round more than it
-- has bytes, since each round that goes on takes four bytes at least; the chunks of a key list,
-- with as many rounds as it has bytes; the check of a payload, with as many rounds as there are
-- values in it; the digits of a number, with as many as its type needs. A parameter stands for
-- base64, Ed25519, the JSON reader of requests and imports, AEAD, X25519, HKDF, Argon2, BIP39 and
-- MessagePack, and for what the relay answers to a client; the random ids, keys and nonces and the
-- time are arguments.
--
-- Not modelled: reading and writing files and the database are taken not to fail; the texts of
-- errors are left out, and so are HTTP, URLs, sockets and the command line (src/main.rs); of
-- src/vault.rs opening, and of src/device.rs the recovery that creates a vault. The wait for an
-- approval goes over a list of answers, which ends as if the relay were not reached.
pub mod Prelude
pub mod OrdMap
pub mod Record
pub mod Merge
pub mod Proto
pub mod Relay
pub mod Vault
pub mod Sshconfig
pub mod Crypto
pub mod Sync
pub mod Device
pub mod Examples
