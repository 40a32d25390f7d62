-- ===== src/Marketplace.antt =====
-- libs/marketplace: identifiers of listings, sellers and products, and the mapper between them.
pub mod Identity
pub mod Products
pub mod Mapper
mod Tests
