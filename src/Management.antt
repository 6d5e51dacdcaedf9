-- ===== src/Management.antt =====
-- What a management server is asked for and tells: `WebSocketMiniverseService` of
-- app/services/connexion/WebSocketMiniverseService.py over the lists of BaseMiniverseService.py beside it.
pub mod Messages
pub mod Service
pub mod Handlers
pub mod Actions
pub mod Fresh
pub mod Disconnected
pub mod Cache
pub mod Tests
