-- ===== src/Http.antt =====
-- packages/http-provider/src: the strategies that get credentials, how they are put on a request, and
-- the retry of a request that was refused.
pub mod Credentials
pub mod Single
pub mod Transport
pub mod Requests
pub mod Retries
pub mod Adapter
pub mod Calls
pub mod Carried
pub mod Budget
