-- ===== src/Web.antt =====
-- cmd/webui: the middleware that lets a request through, the submission of a request and its process.
pub mod Limiter
pub mod Access
pub mod Submit
pub mod Stream
pub mod Background
