-- ===== src/Lib.antt =====
-- The verification library of termblog: a blog that is read in a terminal, in which every visitor has
-- a shell in a jail. All sources named here are Rust, with paths from the root of the repository.
--
-- The parts of the program, and the files that model them:
-- * Paths and targets, crates/content-model/src/lib.rs, in ContentModel. A Markdown source has a key,
--   a route and a directory (Article: `ArticlePath::parse`); a directory with comments has a FIFO and
--   a target (Attachment, Scope: `from_directory_rel`, `from_target`); Manifest and Index read the two
--   files that the build of the content writes. All other parts use the validators of Validate.
-- * Frames, crates/servers/proto/src/lib.rs, in Proto, and the link that carries them between the
--   gateways, the daemons and jaild, crates/servers/core/src/link.rs, in Link (`send`, `recv`).
-- * The comment daemon, crates/servers/commentd/src, in Commentd. protocol.rs is in Protocol;
--   store.rs is in Line (`normalize_line`), Stored (the comments and their validation), Store (the
--   state and `commit`), Open, Submit, Decision and Moderate, and Query (`public_query`, `page`);
--   `Client::all` of client.rs is in Client, over a store that may change between its requests;
--   `handle` of server.rs is in Server, with the life of the daemon as a list of actions in any order.
-- * The daemon that counts reads, crates/servers/statd/src, in Statd: the checks of the requests in
--   Validate, `record_batch` and `snapshot` in Store, over the interface of Database.
-- * The sessions that the web gateway holds for browsers, crates/servers/web/src/sessions.rs, in Web.Sessions;
--   and the requests for pages that it counts, stats.rs, in Web.Stats: `load_routes`, `record` and the
--   batches that `batch_worker` sends to statd.
-- * The sessions of jaild, crates/servers/jaild/src/session.rs, in Jaild: Quota (`create`), Fifo (the
--   comment FIFOs), Worker (`comment_worker`, which hands submissions to commentd) and Idle; and what
--   jaild writes for a jail before its shell starts, crates/servers/jaild/src/jail.rs: Snapshot (the
--   comments, `snapshot_bytes`) and Stats (the counts: the request to statd, the checks of the
--   response, `stat_snapshot_bytes`).
-- * The reader in the jail, crates/tools/jailbin/src/blog, in Blog: Comments is `load` of comments.rs,
--   which reads what `snapshot_bytes` wrote.
-- * The builder of the articles, crates/tools/content-build/src, in ContentBuild: Wrap is the folding
--   of styled text in ansi.rs (`wrap_segments`), and Render writes a folded line with its escape
--   sequences (`render_line`) and counts its columns (`visible_width`).
-- Prelude has what they share: texts as lists of scalar values with the operations of `str`, results
-- with `?` as a bind, lists over the native numbers.
--
-- How state and failure are modelled. A store or a session is a record, and each operation is a
-- function from the state before to the answer and the state after. What the file system, a socket or
-- another task answers is an argument: a list of replies (Link), a record of replies (CommitIo), or a
-- list of events in any order (Web.Sessions: `Event`, `step`, `run`). The events of a held session
-- are atomic, as the lock of the table and the single forward task make them. The timer of a session
-- that is aborted in its sleep does not fire; one that is past its sleep does (`unstoppable`).
-- `replay` says after how many items a receiver turns out to be gone. Messages of errors are
-- constructors that carry the data which the text shows.
--
-- The packages are parameters: `Env` of Commentd.Stored stands for serde_json, chrono, SHA-256 and
-- the parser of addresses, and `EnvLaws` of Commentd.Reopen says what is relied on: a comment's JSON is
-- one line that ends in a brace and reads back as the comment, a formatted time parses, a digest has
-- 64 hexadecimal digits. The UTF-8 decoder of a FIFO and the answers to requests are parameters too.
-- SQLite is the interface `Database` of Statd.Database, whose statements may fail, with
-- `DatabaseLaws`, what SQL says of the rows that a statement changes; `Env` of Statd.Validate stands
-- for HMAC and for the parser and the printer of addresses. What statd holds is stated against the
-- list of the events recorded so far (`Represents`).
--
-- Bounds and fuel. Numbers are natural numbers; where the source checks a 64-bit sum, so does the
-- model (`checked_suc`), and the length of a frame keeps its 32 bits. `chunks` recurses on fuel, the
-- length of the list, which is enough since every piece takes an element; `round` of Commentd.Client
-- has its fuel as an argument, one for each page, and says so when it runs out.
--
-- Not modelled: the checks of the directory and of file modes when a store is opened, and `init`; the
-- JSON payloads; the loop `pump` of jaild over its file descriptors, and the jails themselves, with the
-- rest of jail.rs, which are calls of FreeBSD; the server of statd, the SSH gateway, the HTTP routes,
-- the rest of the builder of the content and of the programs inside the jail; the front end and the
-- scripts, which are not Rust.
pub mod Prelude
pub mod ContentModel
pub mod Proto
pub mod Link
pub mod Commentd
pub mod Web
pub mod Jaild
pub mod Statd
pub mod Blog
pub mod ContentBuild
