-- ===== src/Tests.antt =====
-- Runs of the model on concrete inputs, and the theorems at inputs that meet their hypotheses.
mod GrantTests
mod RunTests
mod SiemTests
mod PaymentTests
mod TriggerTests
mod RedactionTests
mod SecretTests
mod GatewayTests
