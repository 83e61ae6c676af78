-- ===== src/Lib.antt =====
-- OpenTelemetry Querier: a query proxy for observability backends. A query goes through
-- acceptor -> processors -> dispatcher, and its result comes back through the processors in
-- reverse. This library models the query model of qdata/, the admission of a query
-- (acceptor/ingress.go), the processors of processor/, the pipeline that runs them, the join of two
-- signals' results in connector/crosssignalconnector/, the languages in which a plan comes and
-- goes (LogQL in both directions; PromQL, Elasticsearch clauses and Lucene in one), component ids,
-- and the check of the configured pipelines.
--
-- Files, with the code that each is about:
--   Base, Base/*            shared notation and lemmas: Bool, lists, strings with Go's
--                           strings.EqualFold on ASCII letters, int64 as ℤ, and maps
--   Qerror                  qerror/qerror.go: coded errors and their HTTP status; Qerror/Steps has
--                           the lemmas on steps that may fail
--   Qdata/Predicate         qdata/qdata.go (ValidatePredicate, FlattenConjunction) and the messages
--                           Predicate, LabelMatcher, BoolExpr of gen/qdata/v1/query.pb.go
--   Qdata/Plan              qdata/qdata.go (ValidatePlan and its parts) and the plan's messages
--   Qdata/Signals           qdata/qdata.go (PlanSignals, collectSignals, dedupSignals)
--   Qdata/Attrs             qdata/qdata.go (AttrGet, AttrPut, AttrDelete, AttrGetFold)
--   Qdata/Query             qdata/qdata.go (metadata, tenant, SyncPlanSignals) and the Query message
--   Qdata/Result            qdata/qdata.go (Notify, Warn, TableResult) and the result messages
--   Qdata/Table             qdata/qdata.go (ValidateTable, tableColumns, RenderTable)
--   Qdata/Identifier        qdata/identifier.go (ValidIdentifier)
--   Acceptor/Ingress        acceptor/ingress.go (PrepareIngress, sanitize, injectHeaders)
--   Processor               processor/processor.go: the interface, and the no-op Base
--   Processor/Header        headerValue, which the processors that read a header share
--   Processor/Tenant        processor/tenantprocessor/tenantprocessor.go
--   Processor/SimpleAuthz   processor/simpleauthzprocessor/simpleauthzprocessor.go and factory.go
--   Processor/QueryRewrite  processor/queryrewriteprocessor/queryrewriteprocessor.go
--   Processor/ResponseFilter  processor/responsefilterprocessor/responsefilterprocessor.go
--   Processor/RateLimit     processor/authratelimitprocessor/authratelimitprocessor.go
--   Connector/Tables        connector/crosssignalconnector/join.go (resultToTable and its parts)
--   Connector/KeyColumns    connector/crosssignalconnector/join.go (resolveKeys and its parts)
--   Connector/Join          connector/crosssignalconnector/join.go (joinTables and its parts)
--   Pipeline                pipeline/pipeline.go (Handle, Start, Shutdown); Pipeline/Runs has its
--                           runs as relations
--   Golib, Golib/Literals   what packages strconv, time and unicode do, as parameters, and the
--                           documented laws of them that results name as hypotheses
--   Loki/Scan               acceptor/lokiacceptor/logqlparse.go: tokenizeLogQL and its parts
--   Loki/Parse              acceptor/lokiacceptor/logqlparse.go: parseLogQL and its parts; the
--                           operators are in Loki/Parse/Operators
--   Loki/Render             dispatcher/lokidispatcher/logql.go (planToLogQL and its parts)
--   Loki/*                  the parser at the renderer's texts, piece by piece, up to
--                           Loki/RoundTrip; Loki/Lexing and Loki/Termination are about fuel
--   Prometheus/Render       dispatcher/prometheusdispatcher/promql.go (planToPromQL and its parts)
--   Prometheus/Expressible  the plans of PromQL, described without texts
--   Elasticsearch           dispatcher/elasticsearchdispatcher/esquery.go (planToESQuery and its
--                           parts); Elasticsearch/Meaning says which documents a clause finds
--   Lucene                  acceptor/elasticsearchacceptor/lucene.go (parseLucene and its parts);
--                           Lucene/Returns, Lucene/Lexing and Lucene/Termination are about fuel
--   Component               component/component.go and component/identifiable.go (ID, NewType)
--   Component/Config        querier/config.go (validate, pipelineSignal, parseID)
--   Isolation               the enforcing processors together on the request path
--   Tests                   runs at concrete inputs, and the results below at concrete inputs
--
-- How the code is read. A Go method that mutates its argument is a function that returns the
-- argument as it left it, beside its error. A pointer that may be nil is an Option, or a constructor
-- `nil` of the type where the code treats it as one more case. The oneofs of the protobuf messages
-- are data types, with one constructor for a member that is not set. A map is an association list
-- with one entry for a key; where the code ranges over a map, the order is the list's, and a result
-- that does not depend on it is stated with its condition. A message of an error is kept as its
-- format. int64 is ℤ and enums are natural numbers or data types with a constructor for a number
-- that is not declared; no arithmetic on them overflows in the modelled code. Floating-point
-- numbers are kept as opaque bits; the rate limiter takes their arithmetic, the clock and the digest
-- of package sha256 as parameters, and the join takes the decimal texts of package strconv. The
-- limiter's map and linked list are one list of its entries, the most recently used first.
-- Loops are structural recursion over the list or tree that they walk, but in the parsers of
-- LogQL and Lucene. The loop of LogQL's tokenizer has a unit of fuel for each round and is given
-- as many as the text has characters, since each round reads one at least; parseExpr takes one
-- for each call and is given one more than there are tokens, since each call of itself has read
-- one at least. In the parser of Lucene, parseOr, the loop of parseAnd and the one of
-- parseOperandList have fuel in this way, and so has the loop of its tokenizer. Running out of
-- fuel is a value of its own, `out_of_fuel`. The end of the input, a token in the source, is the
-- end of the list of tokens. A clause of Elasticsearch is a data type in place of nested JSON
-- maps.
--
-- Not modelled: the HTTP and gRPC handlers of the protocol acceptors and dispatchers and their
-- conversion of requests and responses, the conversion from the syntax tree of
-- the prometheus library, the reading of the configuration and the building of the service, the
-- builder, the fingerprint of a plan, the dispatch of the connector to its target pipelines, the
-- locks and the pointers of the limiter, and generated code beyond the messages. A dispatcher is a
-- parameter of the pipeline.
mod Base
pub mod Qerror
pub mod Qdata
pub mod Processor
pub mod Acceptor
pub mod Pipeline
pub mod Connector
pub mod Golib
pub mod Loki
pub mod Prometheus
pub mod Elasticsearch
pub mod Component
pub mod Lucene
pub mod Isolation
mod Tests
