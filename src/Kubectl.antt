-- ===== src/Kubectl.antt =====
-- images/agent0-connector/src/kubectl: which kubectl commands the connector executes.
pub mod Arguments
pub mod Allowed
pub mod SortBy
pub mod Validation
pub mod Output
pub mod Tests
