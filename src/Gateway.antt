-- ===== src/Gateway.antt =====
-- backend/main.py: the application. Requests has what goes in and out, Startup the lifespan,
-- Endpoints the handlers, Shutdown the end, Wiring the queue with its callbacks, and Service the
-- requests in any order; the other modules prove what they do to the components.
pub mod Requests
pub mod Startup
pub mod Launch
pub mod Endpoints
pub mod Recovering
pub mod Reporting
pub mod Shutdown
pub mod Release
pub mod Filing
pub mod Wiring
pub mod Delivery
pub mod Service
pub mod Serving
