-- ===== src/HttpClient.antt =====
-- client/http: the HTTP client, its endpoints and their settings.
pub mod Names
pub mod Lookup
pub mod Setting
pub mod Endpoint
pub mod SdConfig
pub mod Client
pub mod Setup
pub mod Discovered
