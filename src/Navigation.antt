-- ===== src/Navigation.antt =====
-- apps/ui/src/hooks: filters that live in the URL, and the guard against losing unsaved changes.
pub mod UrlFilters
pub mod UnsavedGuard
