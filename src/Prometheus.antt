-- ===== src/Prometheus.antt =====
-- dispatcher/prometheusdispatcher: the PromQL text of a plan.
pub mod Render
pub mod Expressible
pub mod Closed
