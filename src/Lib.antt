-- ===== src/Lib.antt =====
-- A model of matrix-bridge-discord, which relays rooms and channels between Matrix and Discord.
--
-- The parts, and the files that model them:
-- - Command: `parse_prefixed_command` and `parse_guild_and_channel` of src/parsers/command_parser.rs.
-- - DiscordCommand: `DiscordCommandHandler` of src/discord/command_handler.rs. A message and the
--   sender's permissions become an outcome, which src/bridge.rs carries out.
-- - MatrixCommand: `MatrixCommandHandler` of src/matrix/command_handler.rs, the same for Matrix.
-- - HashMap and TimedCache: `TimedCache` and `AsyncTimedCache` of src/cache.rs. A map is an
--   association list, a lock is held for one operation, and the clock is an argument.
-- - Presence: `PresenceHandler` of src/bridge/presence_handler.rs, and the ticks of
--   `BridgeCore::start` in src/bridge.rs. A tick takes a presence, awaits the target and may queue the
--   presence again: two sections under the lock, between which other tasks may use the queue.
-- - Blocker: `BridgeBlocker` of src/bridge/blocker.rs. The two counts of the database are arguments.
-- - Provisioning: `ProvisioningCoordinator` of src/bridge/provisioning.rs. The one function that
--   waits is cut where it waits: a request is sent, delivered or not, and polled, and a request whose
--   timeout has fired locks the map in a later event; these events come in any order with those of
--   other requests.
-- - MessageFlow: src/bridge/message_flow.rs, with `extract_plain_text` of src/parsers/common.rs. The
--   accessors of a JSON value and the converters of markup are parameters.
-- - BridgeLogic and Formatting: src/bridge/logic.rs and src/utils/formatting.rs.
-- - Rooms: what src/bridge.rs does to bridge and unbridge a room. A task reads and writes the store
--   and the cache, and stops at the first error. Rooms.Store is the interface of
--   src/db/stores/mod.rs with the laws that the tasks rely on; what Discord and the homeserver
--   answer is a function of the calls so far. Other tasks change the state in a way that is a
--   parameter while a request waits for the permission, and between the check of the limit and the
--   insertion; elsewhere a task runs without others between its steps. Rooms.Handlers is the rest of what changes the
--   mappings: encryption, and updates and deletions of channels and guilds.
-- - Messages: how src/bridge.rs sends to Matrix, and remembers which event a message has become.
--   Messages.Store is the interface of the links of messages, with its laws.
-- - Moderation: `handle_discord_command_outcome`. FromDiscord: `handle_discord_message_with_context`,
--   which takes a message to Moderation or to Messages. FromMatrix: `handle_matrix_message` with its
--   command outcomes and what it posts on Discord. The provisioning handler is a part of the state.
-- - MatrixMembers: `handle_matrix_member` of src/bridge.rs, and the names and topics of rooms.
-- - Users: what src/bridge.rs does when users and members change on Discord, with the interface of
--   the store of users. UserSync: `UserSyncHandler` of src/bridge/user_sync.rs.
-- - ChannelQueue: src/bridge/queue.rs. A mutex is a number, and a task may take it when no other holds
--   it, in any order.
-- - MatrixContent: `build_matrix_message_content` of src/matrix.rs; `serde_json`'s values are built
--   by parameters, with their laws.
-- - DiscordClient: login, stop and start of src/discord.rs, and the names of permissions. What the
--   gateway does to an attempt is an argument, and it may end by itself; the loop of the start has as much fuel as attempts
--   are looked at.
-- - Text and Prelude: what the parts share. White space is that of Unicode.
--
-- Bounds: texts are lists of characters, numbers are natural, and the counters of the blocker wrap
-- around at 2 ^ 64. Loops go through a list or a text, but for two: the start of
-- DiscordClient, for which enough fuel is given, and the removal of a prefix in FromMatrix.Profile,
-- which a text as long as it has characters can hold no oftener.
--
-- Not modelled: logging; the regular expressions, serenity, diesel and the application service,
-- which other crates provide; the stores behind the interfaces; power levels and messages as embeds
-- in src/bridge.rs; the converters of markup, the configuration and the web endpoints. In a task the
-- clock stands still but where other tasks act.
pub mod Prelude
pub mod Text
pub mod Command
pub mod DiscordCommand
pub mod MatrixCommand
pub mod HashMap
pub mod TimedCache
pub mod Presence
pub mod Blocker
pub mod Provisioning
pub mod MessageFlow
pub mod BridgeLogic
pub mod Formatting
pub mod Rooms
pub mod Messages
pub mod Moderation
pub mod FromDiscord
pub mod FromMatrix
pub mod DiscordClient
pub mod ChannelQueue
pub mod MatrixContent
pub mod Users
pub mod UserSync
pub mod MatrixMembers
