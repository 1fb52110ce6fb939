-- ===== src/Tests.antt =====
-- Runs of the code at concrete inputs, and each theorem with a hypothesis at an input that meets it.
mod Samples
mod Serialization
mod Management
mod Rules
mod Quotas
mod Deliveries
mod Sessions
mod Dialogues
mod Server
mod Inbound
mod Notifications
mod Policies
