-- ===== src/Auth.antt =====
-- The auth module, done_mod/mod_auth: the client records (Api), the roles (Roles), the file store
-- (Store), the management of clients by administrators (Clients) and of their own profile by
-- clients (Profile), and the start of the service (Service).
pub mod Api
pub mod Roles
pub mod Store
pub mod Clients
pub mod Profile
pub mod Service
