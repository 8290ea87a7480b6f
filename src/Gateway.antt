-- ===== src/Gateway.antt =====
-- packages/control-plane/src/gateway: the entry of the platform.
pub mod RateLimiter
pub mod DeviceAuth
