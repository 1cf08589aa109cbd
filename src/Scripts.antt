-- ===== src/Scripts.antt =====
-- scripts: the helper of the deployment script of the vault.
pub mod Root
