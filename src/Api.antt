-- ===== src/Api.antt =====
-- The gRPC handlers (internal/api/grpc): the messages of the protocol (the generated code of proto/) as
-- records, their fields that the handlers read or write. A sub-message that is nil is `none`.
pub mod Messages
pub mod Events
pub mod Gateway
pub mod SchemaCalls
pub mod Acknowledgements
pub mod Streaming
pub mod Replays
pub mod Registrations
mod Tests
