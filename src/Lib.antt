-- ===== src/Lib.antt =====
-- rmtx
--
-- rmtx runs commands of a client on a remote host. The client and the host talk in frames over a TLS
-- connection. The client sends the files of a project as content-addressed blobs, cut into chunks that
-- come over several connections at once. The host pairs with clients by one-time codes, keeps a list of
-- those it trusts, lends workspaces to runs, streams its logs back, feeds stdin to the run, and updates
-- itself between runs. This library models the parts of that which decide what is accepted, kept, or
-- lost.
--
-- Base holds what all files share: Boolean tests and lists over the native numbers, Go's (value, error)
-- pair as Result, int64 as Int.ℤ, a Go map as Dict, and a Go string as Text, a list of code points with
-- the functions of strings, unicode and strconv that the program calls.
--
-- Protocol.Frame models internal/protocol/frame.go. A direction of a connection is a list of bytes;
-- WriteJSON, WriteBytes, WriteFrom, ReadHeader, PayloadReader and DiscardPayload are functions on it.
-- encoding/json is the record Json, whose laws say that what was marshalled is unmarshalled again.
--
-- Syncfs.Hash models the check of blob hashes in internal/syncfs/store.go. Syncfs.Chunks models the
-- planning functions of internal/syncfs/chunked_blob.go; its loop runs on fuel, 1 + (size - 1) / chunk
-- rounds, which Chunks.Tiles shows to be all it needs. Syncfs.Receiver models NewChunkedBlobReceiver,
-- ReceiveChunk, fail and the chunked writer of the same file: a whole call is one step, what
-- the disk answers and what the connection delivers are inputs of the step, and the digest (SHA-256) is
-- a parameter. ReceiveChunk itself releases its lock between the lookup, the write, the commit and the
-- count of what is pending; the calls that come in between there are not modelled.
--
-- Syncfs.Manifest models the entries of internal/syncfs/manifest.go, what Diff, NormalizeModes,
-- PreserveMissingEntries and FilterEntriesByPath make of them, the patterns, and the paths of mounts;
-- path.Match is a parameter, and so is filepath.Clean but for the mounts; sort.Slice is an insertion
-- sort. Syncfs.Apply models the check of a
-- set of changes in internal/syncfs/apply.go, with filepath.Clean, IsLocal and Dir written out in
-- Base.Path for Unix; the loop over a path's directories runs on the path's length as fuel, which
-- Base.Path.Parents shows to be enough.
--
-- Host.Downloads models the sessions of internal/host/blob_transfer.go that send blobs to a client, with
-- the preparation of their items in internal/host/server.go (Downloads.Prepare) and the test for lost connections in
-- internal/protocol/net_errors.go. What the context, the file and the connection answer to a request is
-- an input of its step.
--
-- Host.LogStream models internal/host/log_stream.go, and Host.PipeInput the pipe of
-- internal/host/run_input.go: queues of byte slices with spent slots before `head`, as the code keeps
-- them. The loops that make room run on the queue's length as fuel, and each round moves `head`.
-- Host.TtyInput models the terminal's queue in internal/host/run_input.go, with resizeTTYWriter of
-- internal/host/server.go and resizePTY of internal/host/pty_linux.go behind it.
-- Host.PairLimit, Host.PairCodes and Host.TrustStore model pair_limit.go, pairing_store.go and
-- trust_store.go of internal/host. Host.Leases models the lease locks of internal/host/context_store.go,
-- and Host.Restart the run counter and restart flag of internal/host/server.go; both come with a
-- relation that holds of every order of calls.
--
-- Host.LeaseFiles models internal/host/workspace_lease.go: the leases of one context as a map from the
-- names of directories to the files in them (Files: how they are read, written and removed; Prepare:
-- how a run gets a lease and gives it back; Remove: prune, list and delete). A run of a context holds
-- the context's lock, so each call is one step. How the disk answers in the course of a call, also
-- with a half-done write or removal, is the record LeaseDisk. The other files below it are proofs.
--
-- Host.Contexts models the ids and the delete selection of internal/host/context_store.go, with the
-- wrap of a negated time.Duration at its minimum. Config models
-- internal/config/config.go: Config.Runtime the runtime and its checks, Config.Project the defaults and
-- what Load checks of a decoded configuration, Config.Context the id that a client gives its context,
-- which the host's check takes.
--
-- Client.State models the hosts and credentials of internal/clientstate/state.go (Move: the move to
-- another address, with the host's record cut out of the list in place of its index), and
-- Discovery.Claims the claim of reverse requests in internal/discovery/discovery.go.
--
-- Oci.Reference models internal/oci/reference.go.
--
-- Version models internal/version/semver.go. Digits beyond Latin-1 are a parameter.
--
-- Times are natural numbers of nanoseconds and the current time is an argument. Where a lock is held for a whole
-- operation it is one step; waiting is an answer of the step. Tests holds runs on small inputs.
--
-- Not modelled: the command line, process and container execution, TLS and certificates, the network
-- and file system calls themselves, and the parts that the manifest names.
pub mod Base
pub mod Oci
pub mod Protocol
pub mod Syncfs
pub mod Version
pub mod Host
pub mod Config
pub mod Tests
pub mod Client
pub mod Discovery
