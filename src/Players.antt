-- ===== src/Players.antt =====
-- Who plays where: app/services/connexion/server_status_store.py (`Store`),
-- app/services/connexion/BaseMiniverseService.py and MCRouterMiniverseService.py beside it (`Router`), and
-- the webhook of app/managers/ServerStatusManager.py (`Webhook`).
pub mod Store
pub mod Router
pub mod Webhook
pub mod Coherence
pub mod Targets
pub mod Tests
