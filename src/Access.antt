-- ===== src/Access.antt =====
-- Who may read which page of the vault: shared/security/access.py. Identities, slugs and paths are
-- texts whose characters count, so they are lists of code points here.
pub mod Path
pub mod Membership
pub mod Resolver
pub mod Policy
mod Samples
