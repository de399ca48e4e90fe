-- ===== src/Connector.antt =====
-- src/dakv/connector: the connector's two sides and the state they keep for each request.
pub mod State
pub mod Adapter
pub mod Metadata
pub mod Scheduler
pub mod Paged
pub mod SaveSession
pub mod Worker
pub mod Deadline
pub mod Object
pub mod Publish
pub mod Saver
pub mod LayerName
pub mod Loader
pub mod RefineManager
