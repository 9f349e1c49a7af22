-- ===== src/Dashboard.antt =====
-- apps/ui/src/pages/DashboardPage.tsx and apps/ui/src/pages/dashboard: which widgets the dashboard shows,
-- in which order, and how that is kept in the browser.
pub mod WidgetConfig
pub mod Layout
pub mod Queries
pub mod Widgets
