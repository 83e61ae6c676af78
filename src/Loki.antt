-- ===== src/Loki.antt =====
-- LogQL, the query language of Loki: the tokenizer and the parser of acceptor/lokiacceptor, and the
-- renderer of dispatcher/lokidispatcher.
pub mod Lexing
pub mod Pieces
pub mod Quotes
pub mod Matchers
pub mod Selectors
pub mod Canonical
pub mod Durations
pub mod Groupings
pub mod Arguments
pub mod Meaning
pub mod Endings
pub mod Termination
pub mod Expressions
pub mod RoundTrip
pub mod Render
pub mod Scan
pub mod Parse
