-- ===== src/Lib.antt =====
-- AmitAI: the backend and the runtime of a local chat assistant with persistent memory.
--
-- The program keeps conversations and remembered facts in an encrypted SQLite database
-- (backend/), compiles a bounded context for a model provider, runs the provider's output through
-- a tool protocol, and answers as one response or as a stream of events (runtime/).
--
-- Common: Boolean tests on numbers, lists with native lengths, text as lists of code points with
--   the methods of Python's `str` that the code calls.
-- Memory (backend/memory.py, backend/repositories.py, backend/models.py): `Types` has the rows;
--   `Tables` the queries of `MemoryRepository` and the redaction of chat metadata; `Stage` the
--   validators and `stage_*` methods; `Apply` is `MemoryService.apply`, a branch or a statement to
--   a function; `Retrieve` is `MemoryService.retrieve`. A raise inside `apply` is rolled back by
--   the transaction of the caller, so an error carries no tables. NFKC normalisation, `casefold`,
--   the length of a record's JSON and the two credential detectors of backend/secret_detection.py
--   are parameters. `Outcome` describes what `apply` leaves, `Consistency` is the invariant of the
--   tables, `Keeps`, `Forgetting` and `Staging` hold the theorems.
-- Context (runtime/context.py): `compile_model_context` and what it calls. A message's projection is
--   an option; `Bounds` and `Privacy` hold the theorems.
-- Calculator (runtime/calculator.py): `Tokens` is `_tokenize`, `Validator` is `_GrammarValidator`,
--   `Parser` is `_Parser`, `Expression` has `evaluate_expression` and `CalculatorTool`. Decimal
--   arithmetic and the Unicode classes are parameters. The tokenizer has fuel for each character,
--   the validator and the parser for six calls a token and six more; `Fuel`, `Reading` and `Returns`
--   show that it is enough. `Agreement` relates the validator and the parser.
-- Tooling (runtime/tooling.py): `Protocol` has the prefix classification and the filter of late
--   envelopes, whose inner loop has fuel for two turns and no result without it; the filter takes
--   the result that two turns are shown to give; `Registry` has `parse_tool_call` and
--   `ToolRegistry`, with `json.loads` and the tools as parameters. `Filtering`, `Envelopes`,
--   `Attempts`, `Calls` and `RoundTrip` hold the theorems; the last has `json.dumps` as a
--   parameter with a named law.
-- Generator (runtime/generator.py): `Types` has `_validate_output` and `_stream_once`, `Candidate`
--   is `_stream_candidate`, `Loop` both tool loops, a turn to a function. A provider is a function of
--   the number of its calls so far and the messages; an item that arrives once the cancel event is
--   set is marked in the stream. `Tools` is the interface to `Tooling` and to JSON. The loops have
--   four turns, one for each tool of the budget and one that answers; `Loop.Ends` shows that they
--   are enough. `Reply` is `_generate_validated_response`, which joins the tool loop and the
--   constraints; the decision of the preflight is its input.
-- Constraints (evaluation/constraints.py): `Prompt` is `parse_constraints`, `Validation`
--   `validate_response`, `Guidance` `build_retry_prompt`, `Repair` the checks of a repair and the edit
--   that deletes articles, `Retries` `validate_with_bounded_retries` over a retry with a state. The
--   patterns that need a regular expression engine are parameters, by what they find.
-- Chat (backend/chat_service.py): `Types` has the acknowledgments, titles and timestamps,
--   `Stream` is `_stream_generation` and `stream_chat`, whose cancel signal is a reading at each
--   place where the code asks it; what `_remote_grant` gives, the prepared chat and the
--   transaction are inputs. `Protocol` has the order of the events and the commit as a relation.
--   `Rows` has the tables of conversations and messages with their repositories, whose primary
--   keys refuse an id that is taken; `Persist` is `_persist_chat`, which calls `Memory.Apply`;
--   `Transcript` and `Committing` hold what it leaves. A refused transaction carries no tables.
--   `Prompt` has the messages that `_prepare_chat` gives to the generator for a text turn;
--   `Prompt.Privacy` joins them with `Context`.
-- Secret (backend/secure_memory.py): `SecretHandle` as a state with the calls of its holder;
--   `Erasure` has the invariant. Whether the memory was locked is a parameter.
-- Vision (backend/vision_grant.py): `RemoteVisionGrant`; `Consent` has the theorems.
-- KeyStore (runtime/key_store.py, and the rotation of a database's key in backend/database.py):
--   `Types` and `Envelope` have the documents, with Argon2 and AES-GCM as parameters that keep
--   named laws; a key, a salt and a ciphertext are texts of code points. `Disk` has the files
--   that an operation leaves, and programs over them: each write takes the next fault of a list,
--   by which it is made, raises before or after its effect, or is the place of a crash; past the
--   end of the list writes are made. Writes to a file are atomic, as `atomic_write_private` and
--   `os.replace` make them, so a crash lies between two of them. `Copies` is
--   `rotate_encrypted_database`, with what SQLCipher and the phase hook do as a `Course`;
--   `Operations` has the methods of `KeyStore`. `Disk.Triples` and `Disk.Returns` are the rules
--   for what holds wherever a program ends, and for what it returns. `Recoverable` has the
--   invariant, `Recovering`, `Unlocking`, `Rotating`, `Passphrases` and `Importing` an operation
--   each, and `Sessions` the disks that operations lead to.
-- Not modelled: the HTTP routes, schemas and engine wiring, which call these parts or do input and
-- output; assets, backups, the rest of database.py, model providers and the preflight; the other
-- files of evaluation/, training/, scripts/ and frontend/.
pub mod Common
pub mod Memory
pub mod Context
pub mod Calculator
pub mod Constraints
pub mod Tooling
pub mod Secret
pub mod Vision
pub mod Generator
pub mod Chat
pub mod KeyStore
