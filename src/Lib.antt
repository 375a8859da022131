-- ===== src/Lib.antt =====
-- A tabletop role-playing plugin for a chat bot: players of a chat group ("stream") join a session,
-- build characters with points, act, and a language model plays the game master. The session, the
-- characters and the save slots are kept in memory and written to JSON files.
--
-- The parts, and the files that model them:
-- * models/player.py -- Player: Player/Attributes (the six attributes, their aliases, and the methods
--   that `hasattr` finds), Player/Item and Player/Defs (inventory, hit points, point-buy),
--   Player/Codec (to_dict and from_dict). Proofs: Player/Access, Player/Refund, Player/Points,
--   Player/Vitals, Player/Inventory.
-- * models/session.py -- Session: Session/World and Session/Story (NPCs, history entries, the story
--   context), Session/Defs (TRPGSession), Session/Codec. Proofs: Session/Trim, Session/WellFormed.
-- * models/storage.py -- Storage: Storage/Defs is the state of StorageManager (the caches of sessions
--   and players, the groups, the pending joins, and the files) and its methods, Storage/SlotDefs the
--   save slots, Storage/Files the paths, Storage/Start the loading at the start, save_all and search_lore.
--   Proofs: Storage/Slots, Storage/RoundTrip, Storage/Players, Storage/Restart.
-- * modules/base.py and modules/loader.py -- Modules: Modules/Base and Modules/Loader, with the proof
--   of what survives saving in Modules/Reload.
-- * components/commands.py -- Commands: Commands/Defs (the caller and the reply), Commands/Play
--   (start, end, save, pause, resume), Commands/Join (join, confirm), Commands/Character (pc, hp,
--   mp), Commands/Items (inv), Commands/World (dm, lore), Commands/Slot (slot), Commands/Rolls
--   (roll, scene and the dice shortcut), Commands/Words (reading of numbers and words),
--   Commands/Machine (the state machine of a session). Proofs: Commands/Status, Commands/Moves and
--   Commands/Life on that machine, Commands/Joining on who may join.
-- * components/handlers.py -- Handlers: Handlers/Collector (ActionCollector), Handlers/Reading (what
--   a message is and the feedback to it), Handlers/Rounds (_handle_multiplayer_action and
--   _process_collected_actions), Handlers/Execute (execute). What is sent is a list of events, of
--   which `answer_one` and `answer_all` stand for asking the language model; Handlers/Response is
--   the attempts to get a response and what is done with it (_generate_and_send_dm_response,
--   _generate_batch_dm_response and the image of a climax); what the host's language model answers
--   and whether an image is made are arguments. Proofs: Handlers/Missing, Handlers/Retries,
--   Handlers/Answers, Handlers/Passing.
-- * services/dice.py -- Dice: Dice/Random (Python's `random` as an interface), Dice/Parse (the
--   patterns), Dice/Roll (roll, _roll_simple, _roll_complex), Dice/Check (roll_check, roll_opposed,
--   the quick rolls). Proofs: Dice/Bounds, Dice/Terms, Dice/Agree, Dice/Checks.
-- * services/dm_engine.py -- DmEngine: DmEngine/Changes (GameStateChange), DmEngine/Apply
--   (apply_state_changes), DmEngine/Pattern (the regular expressions, with the matches in the order
--   of Python's `re`), DmEngine/Tags (parse_state_changes), DmEngine/Clean (clean_state_tags),
--   DmEngine/Story (tension, climax, summary, context, choice of a model), DmEngine/Reply
--   (generate_dm_response, generate_batch_dm_response and their fallback). Proofs: DmEngine/Tidy,
--   DmEngine/Untagged, DmEngine/Takes, DmEngine/HpTag and DmEngine/HpRead on the tags,
--   DmEngine/Work, DmEngine/Users, DmEngine/Settle and DmEngine/Vitals on applying the changes,
--   DmEngine/Moments on the rest.
-- Prelude holds lists, dictionaries in insertion order, integers and texts; Json the JSON values.
--
-- Correspondence. A Python object that is changed is a record that is returned; the storage is passed
-- along. A cached session or player is its entry in the caches, and a handler that changes the object it
-- looked up changes that entry. A handler is split at the value that it looks up, so that each branch is a
-- clause. Exceptions are `none`, or a reply of their own. Times are natural numbers that are only stored,
-- given to each call; one clock reading serves a whole command. Python's integers are the integers of
-- Prelude/Int, without a bound. The loops are structural recursions, but for that over the terms of a
-- dice expression, which takes the length of the expression as its fuel: each term takes a
-- character at least.
--
-- Limits. `lower` changes the letters A to Z, and `re.IGNORECASE` goes by them; the words that the
-- program looks for need no more. A number is read from ASCII digits. A JSON value of another type
-- than the field's is refused, where Python stores it and fails later. The file system does not
-- fail, and directories are not modelled. A method of the attributes that is overwritten by a number
-- can no longer be called, which is modelled; points that are allocated under the name of such a method
-- are an error, where Python would enter them. The texts that are sent (but for the feedback to an
-- action), the prompts for the language model, the tasks that wait for actions and
-- remind, the image and document services, the tools, the presets and the registration with the host
-- are not modelled.
pub mod Prelude
pub mod Json
pub mod Player
pub mod Session
pub mod Storage
pub mod Modules
pub mod Commands
pub mod Handlers
pub mod Dice
pub mod DmEngine
