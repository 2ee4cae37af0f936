-- ===== src/Lib.antt =====
-- okayeg keeps a repository as a CRDT document and syncs it between peers. This library models its
-- core: the document and its file tree, the sync protocol, its wire, and the gate on what a peer
-- may do, as far as the parts below say.
--
-- Parts, and the code that they model:
--
--   Replica      the CRDT library, outside the repository: a record of the operations that the
--                code calls on a document, and `Converges`, the laws that the sync theorems need
--                (exports can be made, an import of updates since a version joins the contents and
--                includes both, nothing new changes nothing). An import that fails may have
--                changed the document.
--   Doc          crates/okayeg/src/doc.rs: a document, and its versions, exports and imports.
--   Sync.Msg     crates/okayeg/src/sync.rs: the messages and their codec, the permissions.
--   Sync.Driver  crates/okayeg/src/sync.rs: `Sync`, one side of a one-round exchange. `on` returns
--                its result and the driver after it, since an error leaves changes in place; the
--                branches of the source's match are `on_have` and `on_updates`, chosen by
--                `dispatch`.
--   Sync.Exchange  two drivers with a queue of encoded frames each way; `deliver_a` and `deliver_b`
--                hand over one frame, and `Reach` is what any sequence of deliveries reaches.
--   Sync.Live    crates/okayeg/src/sync.rs: `LiveSync`, the session that stays open; the document
--                that it borrows is an argument and a result.
--   TreeDoc      the movable tree of the CRDT library with the metadata of its nodes, outside the
--                repository: its operations, and the laws `IsTree` of creation and placement. An
--                operation that the library refuses is none.
--   Tree         crates/okayeg/src/tree.rs: files, directories and boundaries as tree nodes. An
--                operation that the source ends by `expect` is none where this fails.
--   Fs.Path, Fs.View, Fs.Edit  crates/okayeg/src/fs.rs: the path-addressed view, its reads and its
--                edits, and the listing commands of crates/eg/src/filetree.rs. An edit returns its
--                result and the document after it.
--   Fs.Slice     crates/okayeg/src/fs.rs: `read_bytes`, with the slices of the library's text as a
--                parameter.
--   Mount        crates/eg/src/mount.rs: the FUSE file system. Mount.Inodes is the table of numbers,
--                Mount.Writeback the dirty buffers (the document stands beside them), Mount.View the
--                attributes and paths of nodes, Mount.Requests and Mount.Requests.Paths the handlers
--                of `Filesystem for DocMount`: each returns its reply and the mount after it. The
--                clocks are arguments; the kernel's buffer for directory entries is a parameter, and so is
--                what the document's subscription reports of a commit, which stamps the times of files.
--                A panic is none, also that of a write whose end wraps.
--   Config       crates/eg/src/config.rs: the configuration of a repository (Config.Repo) and of the
--                machine (Config.Global), over a TOML library that is a parameter, the colour of a
--                cursor (Config.Color), and what the scopes are merged to (Config.Resolve).
--   Workspace    crates/eg/src/workspace.rs: the trait of the files that a repository is kept with.
--   Watch        crates/eg/src/watch.rs: the bases of exported files, and the pruning of what a delete
--                or rename of a peer left on disk (the files and the two maps are one state).
--                Watch.Ingest is `apply_path` and `apply_batch`, which take changed paths in.
--   Utf8         the text conversions of the standard library that the wire uses.
--   Net.Frame, Net.Control, Net.Drive  crates/okayeg-net/src/lib.rs: length-prefixed frames,
--                refusals as control frames, and `drive`, the exchange over a byte stream: the
--                bytes that the peer sends are a list, and so are those that are sent.
--   Net.Held     crates/okayeg-net/src/lib.rs: `drive_live`, the session that is held open, with its
--                `PresenceLink`: `turn` is one round of the loop, of the event that is ready, and
--                `drive_live` the opening and any list of rounds.
--   Net.Authz    crates/okayeg-net/src/authz.rs: decisions, and the command that decides.
--   Trust        crates/eg/src/trust.rs: the trust set and the actions of `eg trust`. Trust.File is the
--                file that keeps it, with the TOML library and the ids of endpoints as parameters
--                (`Formats` and its laws `IsFaithful`), and the gate of crates/eg/src/net.rs that
--                reads it for every peer.
--   Presence     crates/okayeg/src/presence.rs: the filter of a peer's presence updates, with the store
--                and the primitives of the serialization library as parameters (`Ephemeral`).
--                Presence.Wire is crates/okayeg/src/presence/wire.rs: entries and their values on the
--                wire, written and read primitive by primitive, with `max_depth` as the source has it.
--   Prelude      shared names, lists, texts as lists of code points, Boolean tests.
--   Tests        a replica and a tree that meet the laws, and runs of the theorems on
--                them; formats of trust files, of presence entries, of TOML tables, of texts and
--                of workspaces that meet theirs.
--
-- How they interact: a view edits the document through the tree; the driver and the session read
-- versions and updates off the document and import into it; `drive` runs the driver over frames;
-- the authorizer, a command or the trust file, gives the permissions that gate it. The mount serves
-- the kernel's requests from the view and from its buffers, and commits these to the document. A
-- held session runs `LiveSync` and the presence filter over frames; the watch edits the document from
-- the files of the workspace, against the text at their bases.
--
-- Bounds and fuel: texts are unbounded lists; a frame's length is four bytes. `drive_loop` takes as
-- fuel the number of rounds, and every round takes a frame of four bytes at least off the stream.
-- `climb` takes one round for each component of the path, also below `dir_path` of the mount.
-- `read_pages` takes one round for each page of a directory and one more. `walk` takes fuel for the nodes that it
-- visits. Fuel that runs out is none.
--
-- Not modelled: input and output, tasks and timers, the QUIC transport, the texts of errors, the
-- bindings to wasm, the startup and the tasks of the mount with the times that are stamped when the
-- debounce's commits or an import change a file, the export of the tree to a workspace and the seeding
-- of bases, and the cursors and comments of a repository.
pub mod Config
pub mod Doc
pub mod Fs
pub mod Mount
pub mod Net
pub mod Prelude
pub mod Presence
pub mod Replica
pub mod Sync
mod Tests
pub mod Tree
pub mod TreeDoc
pub mod Trust
pub mod Utf8
pub mod Watch
pub mod Workspace
