-- ===== src/Connector.antt =====
-- connector/crosssignalconnector: the join of the results of a plan that spans two signals.
pub mod Tables
pub mod KeyColumns
pub mod Join
