-- ===== src/Redis.antt =====
-- The key-value server as its clients see it. The server is not part of the repository: it is the
-- parameter `Redis`, with what its documentation says of each command in `apply`. A client's
-- request is a list of commands (one, or a pipeline). It may fail, and then some prefix of it has
-- been executed.
pub mod Keys
pub mod Commands
pub mod Client
pub mod Triple
pub mod Reads
pub mod Kept
