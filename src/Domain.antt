-- ===== src/Domain.antt =====
-- dancex11/domain_deployment_handler: the application and the application manager of a domain, and the
-- execution manager, over asynchronous requests to the managers of the nodes.
pub mod Requests
pub mod Texts
pub mod Replies
pub mod Application
pub mod Completes
pub mod Errors
pub mod Reports
pub mod Destroyed
pub mod Operations
pub mod Launched
pub mod Matched
pub mod Nodes
pub mod Manager
pub mod Execution
pub mod Prepared
pub mod Ending
pub mod Owned
pub mod Sent
pub mod Retry
pub mod Managed
pub mod Registry
pub mod Registered
pub mod Steps
pub mod Samples
pub mod Tests
