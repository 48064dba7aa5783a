-- ===== src/Stores.antt =====
-- `stores/urls.py`: which store an address belongs to, and its canonical form.
pub mod Patterns
pub mod Urls
