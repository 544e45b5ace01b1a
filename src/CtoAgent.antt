-- ===== src/CtoAgent.antt =====
-- backend/cto_agent.py. Incident holds the incident, Agent the class CTOAgent; the other modules
-- prove what it does.
pub mod Clients
pub mod Incident
pub mod Agent
pub mod Cooldown
pub mod History
pub mod Newest
pub mod Triage
