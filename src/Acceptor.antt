-- ===== src/Acceptor.antt =====
-- The acceptor category: what every acceptor does with a query before the pipeline.
pub mod Ingress
