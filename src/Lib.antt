-- ===== src/Lib.antt =====
-- Kaigara runs a command with secrets in its environment. The secrets stand in a store, by
-- application and scope, with a version for each scope; small commands edit the store, and the
-- wrapper restarts nothing itself but stops the child when a version moves on.
--
-- Values and shared code
--     Base: tests, lists, texts of bytes, maps with string keys, int64, and Exec, functions that
--     change a state and return a value or an error, or panic. A panic and an error keep what was
--     written before.
--     Value: interface{} values and encoding/json. Marshalling is total here: values that json
--     cannot encode, such as NaN, are not modelled, and of the numbers only what decoding makes of
--     them. parse_int64 reads a json.Number within the bounds of int64; add_one wraps around at
--     the largest one.
--
-- Encryptors
--     Encryptor/Interface: pkg/encryptor/types/encryptor.go, Encryptor with its state.
--     Encryptor/Plaintext, Encryptor/Aes, Encryptor/Transit: pkg/encryptor/plaintext, aes and
--     transit; AES-GCM, the random source, base64 and the Vault client are parameters (Crypto,
--     Vault.Client, Vault.Base64). Transit/Opens has its proofs.
--
-- Storages
--     Storage/Interface: types/storage.go, a record of operations over a state.
--     Storage/Gorm: gorm as pkg/storage/sql calls it, a parameter, and the row type Data. A table
--     is lawful (IsTable) if a write without an error shows in the queries of its application and
--     scope, and only there.
--     Storage/Rows and Storage/Sql: pkg/storage/sql/sql.go; Read and Write are read and write of
--     the first, SetEntry and the others set_entry and so on of the second. Its child modules
--     prove what an entry becomes (Entries, SetGet), what a Write leaves for others (Saved,
--     Persist, Reread, Frame), that a failed Write leaves the rows (Failed), and that secrets are
--     only stored encrypted (Sealed, Steps, Runs). A service is sealed (IsSealed) if every secret
--     in its memory and its database is a text from the encryptor.
--     Storage/Kv and Storage/Vault: pkg/storage/vault/vault.go, Read and Write with the paths and
--     keys they use in the first, with Storage/Response for what they make of responses. The
--     interface values in its maps are maps of entries; a response with an empty Data is taken for
--     one with a nil Data.
--     Storage/Sql/Open: NewStorageService and Close. Storage/Sql/Holds, AllEntries, Delete,
--     OtherRows, Refines and Total: what is held for an entry, what GetEntries gives of it,
--     deletions, the rows of other scopes, and runs of commands.
--     Storage/Plain: the specification of a storage, a map of plain values with commands on it;
--     Storage/Plain/Raw has what the refinements share. A service represents a map if every value
--     that it keeps stands for the one of the map, as itself or encrypted, and it keeps no others.
--     A run stops at the first error.
--     Storage/Vault/Entries and Storage/Vault/Refines: the same for the Vault service;
--     Storage/Vault/Persist: what a second service reads; Storage/Vault/Bounds: its versions at
--     the bound of int64. Vault/KvStore: the KV engine as a store. Vault/Token: startRenewToken,
--     the same in pkg/storage/vault and pkg/encryptor/transit but for what is logged; it fills the
--     parameter `connect` of Config/Service.
--     Storage/Memory: the nested maps that both keep.
--
-- Configuration of the child
--     Config/Kfile: the regular expression for file keys of pkg/config/config.go, as a matcher on
--     bytes. Letters are those of ASCII, here and in ToUpper and ToLower.
--     Config/CmdEnv: BuildCmdEnv, one function for each of its loops; `range` over a map visits
--     its entries in the order of the list. Effects, Order, Inherited, Reloaded and Provides have
--     its proofs. Seen and Precedence: what the child sees of c.Env, in which os/exec keeps the
--     last value of a name.
--     Config/Service: GetStorageService; connecting to Vault or to a database is a parameter.
--
-- The wrapper, cmd/kaigara/kaigara.go
--     Runner/Launch: the names of the log channels, the loop over env.Files, and what comes before
--     the child runs, of the pipes and of c.Start; the file system and os/exec are parameters.
--     Runner/ExitCode: exitCode, and what os/exec reports of the end of a child. Runner/Supervise:
--     superviseChild, a loop over the events in the order in which select takes them, with their
--     times in milliseconds; the loop is recursion on that list, and a list without the end of the
--     child leaves it running. Runner/Watch: watchSecrets, over a number of ticks that stands for
--     the time until it is told to stop.
--     Runner/Stdin: the relay of stdin, on fuel of one unit for a line or a part of one; bufio's
--     ReadLine is modelled with its buffer of any size, and what is to come on stdin is a text
--     with an end. Lines and Relayed have its proofs.
--     Runner/Run: kaigaraRun, over the happenings while the child runs: its end, signals, the
--     deadline, the ticks of the watcher, the taking of its message, and changes of the store by
--     others. Its child modules Selected, Rotation and Exit follow these happenings from new
--     secrets to the end of the child and the exit code. Runner/Main: main and pollInterval.
--     Runner/Goroutines: kaigaraRun from c.Start on as a system of goroutines, in steps that are
--     taken in any order: the child writing, each Publish, the goroutine of c.Wait,
--     superviseChild's return, HeartBeat, the relay of stdin as far as it can panic, and the
--     channels and the WaitGroup between them. A step is one call, so writes to stdout and calls
--     of Redis are taken to return. A pipe holds 64 KiB, as on Linux; a child that writes more
--     waits until some of it is read. Its child modules have the invariant of all reachable states
--     (Phase, Invariant), the return (Returns, Joined), and the child's output (Moved, Told,
--     Lost).
--     Logs/Connect: NewRedisClient, GetEnv of pkg/utils/env.go, and cmd/kaitail.
--     Logs: Publish and HeartBeat of pkg/logstream/redis.go, over the list of what the reads
--     return.
--
-- Commands
--     Commands/ReadOnly: that kaidump, kaienv and BuildCmdEnv do not write. Commands/Kaisave,
--     Kaidump, Kaienv, Kaidel, SetupStore: the loops of cmd/kaisave, cmd/kaidump, cmd/kaienv,
--     cmd/kaidel and cmd/env over a storage, as it is given or on SQL. Kaisave/Kept,
--     Kaisave/SaveAll, Kaisave/ToChild and Kaidump/Dumped: what kaisave leaves for a reader, for a
--     child and for a dump. Commands/Main: their main functions, over a machine (Host) with files,
--     YAML, the configuration loader and stdout; Main/Quiet is about stdout.
--
-- How the parts meet: the commands and BuildCmdEnv take a storage as a parameter; sql_storage and
-- vault_storage fill it. The SQL service takes an encryptor; the Vault service encrypts by itself.
-- Tests has the instances on which the theorems are applied.
--
-- Not modelled: the modes of the files and directories of a child, and paths that are two names of
-- one file; what encoding/json does to text that is not UTF-8, which the model keeps where the
-- code gets U+FFFD; the parsing of flags, YAML, files and pipes, which are parameters; the calls
-- that renew a Vault token, which the client library makes; pkg/database and the configuration
-- loader pkg/ika, which are copies of other projects; lines of progress and logs. The goroutines
-- are modelled by steps in any order, not by shared memory.
pub mod Base
pub mod Value
pub mod Vault
pub mod Encryptor
pub mod Storage
pub mod Config
pub mod Logs
pub mod Runner
pub mod Commands
pub mod Tests
