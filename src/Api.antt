-- ===== src/Api.antt =====
-- What went wrong with a request, in words: frontend/src/api/client.ts and
-- frontend/src/pages/login/loginError.ts.
pub mod Json
pub mod Issue
pub mod Error
pub mod Laws
pub mod Login
mod Tests
