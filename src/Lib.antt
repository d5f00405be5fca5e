-- ===== src/Lib.antt =====
-- The ingestion service for EDIFACT files, services/svc-ingestion.
--
-- A file that is uploaded is checked for its size, looked up by its SHA-256 digest, scanned and
-- parsed, and stored: an interchange, its processing version, its subscriptions and its messages.
-- Events are then published. Reads go the same way through handlers to the service and its ports.
--
-- Which file models which part (paths under services/svc-ingestion/internal):
--   Delimiters      adapters/inbound/edifact/delimiters.go (ParseUNA is parse_una)
--   Token, Lexer    adapters/inbound/edifact/token.go and lexer.go. The state is the record Lexer:
--                   the reader's remaining bytes, the current byte and the next, the position and
--                   the two flags. NextToken is next_token, which returns the token and the lexer.
--   Parser          adapters/inbound/edifact/parser.go: State (data and small methods), Segments
--                   (readSegment, skipSegment), Headers (parseUNB, parseUNZ), Messages
--                   (parseMessage), Interchange (NewParser, Parse, and the adapter
--                   edifactParser.Parse of runtime/dependency_options.go as parse_file)
--   Domain          domain/model: one child for interchanges, one for messages, versions and
--                   subscriptions, one for events, one for filters
--   Ingestion       adapters/services/ingestion_service.go over the interfaces of ports: Ports is
--                   the record of what the service calls, over a state S; Service is IngestFile and
--                   what it calls, Results its answers, Reads the other three operations, Action
--                   the calls in a row; Publishing is about the events of an ingested file
--   Usecases        usecases/queries (Health, Handlers; Aggregate is about
--                   aggregateStatus), usecases/commands (Handlers), and the check of the
--                   dependencies in usecases/application.go (Application)
--   Decorators      pkg/decorator, from the repository's root
--   Config          config/config.go
--   Runtime         runtime/deps.go, the options of runtime/dependency_options.go (Built), and the
--                   cleanup of runtime/dispatcher.go (Cleanup); a dependency is there or not
--   Kafka           adapters/outbound/kafka/event_publisher.go and errors.go; Batch is about Publish
--   Repos           adapters/repos: Messages, Versions, Subscriptions and Interchanges are the four
--                   repositories over Database, the record of the statements they send; Rows,
--                   Paging and Follow are about the pages of ListByFilter, VersionRows and
--                   Activation about Activate, Upsert about UpsertByIdentifier, Service puts the
--                   repositories behind the ports as WithRepositories and WithServices of
--                   runtime/dependency_options.go do, Again is about it
--   Router          adapters/inbound/http/router.go: the answer to an upload (Upload, Race), those to
--                   the reads (Reads, Downloads, Listing), and those to the health checks (Health,
--                   Probes); and adapters/inbound/http/middleware (Middleware, Served)
--   Tests           runs, and every result below at a concrete input
--
-- Text is a list of bytes as native numbers. Errors are constructors with the arguments that their
-- messages print. The scanner's loops recurse on the number of bytes left, which is always enough.
-- The parser's loops take fuel, and none is a loop that has not ended: parse_file-IsDone says when
-- the length of the file is enough fuel, and parse_file-IsForeign when no fuel is. A client that
-- follows cursors has fuel for the pages it asks for, and one more than the messages is enough.
--
-- Parameters of the model: time.Parse, fmt.Sscanf and SHA-256 (the record Stdlib), uuid.NewV7 and
-- time.Now (the record Stamp; for a correlation id, new_uuid), the database (the record Database),
-- encoding/json and the text of a UUID (the record Codec), the writer of Kafka, and what the service
-- is given besides (the record Outside). What is relied on of the tables is stated by the records Durable of Ingestion/Again,
-- KeepsRows of Repos/Service, Answers of Repos/Paging, Updates of Repos/Activation, Identified of
-- Repos/Upsert and Readable of Router/Downloads.
--
-- Not modelled: the registration of routes, the multipart reader, the loggers and metrics that are
-- told of calls, the server's loop and its signals, and the generated server, all of which are glue
-- around libraries. The state of a transaction is not: the repositories do not use it.
pub mod Base
pub mod Delimiters
pub mod Token
pub mod Lexer
pub mod Parser
pub mod Domain
pub mod Ingestion
pub mod Usecases
pub mod Router
pub mod Runtime
pub mod Decorators
pub mod Config
pub mod Kafka
pub mod Repos
mod Tests
