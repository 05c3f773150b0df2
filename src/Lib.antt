-- ===== src/Lib.antt =====
-- flexitype: a model of the core of flexitype, a service for soft-typed attributes, and what is proved of it.
--
-- An entity type has attributes with a data type, constraints and a default. Dependencies make what an attribute demands
-- and accepts depend on the values of others. Values change directly or through change-sets, which are
-- reviewed and then published. Queries on entities are written in FQL.
--
-- Prelude         shared notation: Boolean tests on the native numbers, lists, integers without bounds.
-- Bytes, Outcome  Go strings as lists of bytes; what a run of a parser ends in.
-- Fql             pkg/fql: Fql/Token and Fql/Lexer (token.go, lexer.go); Fql/Ast (ast.go); Fql/Reader, Fql/Terms,
--                 Fql/Parser and Fql/Query (parser.go). A parser is a function on its tokens and its depth. What is
--                 proved stands below each: Fql/Lexer/Exact, against the grammar of Fql/Lexer/Grammar; the
--                 Safe modules; Fql/Query/Bounds.
-- Keyed           Go maps with strings as keys, as association lists.
-- Formula         pkg/formula: Formula/Lexer, Formula/Parser, Formula/Rat and Formula/Eval (formula.go). Formula/Parse
--                 and its children say what Parse does, Formula/Eval's children what the evaluators do;
--                 Formula/Checked is the parser as domain/attribute/computed.go calls it.
-- ServiceAccount  pkg/serviceaccount: ServiceAccount/Token and ServiceAccount/Roles (serviceaccount.go),
--                 ServiceAccount/Cache (cache.go), where each section under the lock is a function on the cache and a
--                 history is a list of them.
-- Domain          domain/: Domain/Errors (domain/errors), Domain/Names (identifiers and names), Domain/TypeDef
--                 (domain/typedef), Domain/Values (domain/valueobjects), Domain/Attribute (domain/attribute),
--                 Domain/Dependency (domain/dependency), Domain/Relationship (domain/relationship),
--                 Domain/AttributeValue (domain/value). An aggregate is a record; a method on its pointer
--                 returns the new record and the events, or an error and then has changed nothing.
-- Application     Application/ChangeSet: application/changeset and the compare-and-swap of
--                 infrastructure/memory/changeset_store.go; Application/ChangeSet/Erasure: the erasure of values
--                 there and in infrastructure/postgres/residual_eraser.go; Application/ChangeSet/World has any
--                 number of callers and erasures on one change-set, as a step relation. A record that the store
--                 hands out is a value, as from the Postgres store; the array that the memory store's records
--                 share is not modelled.
--                 Application/Access: the field permissions of application/uow/context.go and accessFor of
--                 internal/interfaces/http/middleware.go.
--                 Application/Hierarchy: application/typedef/hierarchy.go. Application/Unit: the families of
--                 application/unit/unit.go.
--                 Application/Query: application/query, with Bound (bound.go), Literals, Scope, Fields and Binder
--                 (binder.go, with ListAllForType of domain/attribute/listall.go in Scope), and prepare
--                 (interactor.go) in Binder, whose children say what it returns.
-- Db              pkg/db/pagination.go: its pages in Db/Pagination, the condition behind a cursor in Db/Keyset.
-- Tests           runs of the model, and the theorems at concrete inputs.
--
-- Numbers. A length, a position and a version are natural numbers; an int64, an instant and a size are integers without
-- bounds, and the one product that the source computes in an int64, the offset of a relative time, wraps
-- around. A float64 is its bits: equality and order are those of IEEE 754, with NaN and the two zeros. A
-- decimal is compared as an exact fraction.
--
-- Fuel. The lexer has one round for each byte and one more; the parser has fuel for the tokens and the depth; both are
-- proved enough for every input. The formula parser has three rounds for each byte and three more.
-- The walks over hierarchies and over the bases of a relationship definition have the source's own bounds.
--
-- Maps. A Go map is an association list; where the source ranges over one, an order is chosen that no result depends on.
--
-- Arguments. encoding/json's canonical form of a document and regexp's matching are a record, Platform, of functions; the
-- formula parser is a function that a computed attribute is checked with; the arithmetic of float64, the parsing of a
-- float and the hash of a secret are functions; so are what encoding/json, time, net/url, net/mail and pkg/ulid read of a
-- text, the products of math/big, and the repositories that the binder reads; the answer of the field access
-- check and of applying a change-set's mutations come with the call. Fresh identifiers and the time are
-- arguments of the operation.
--
-- Not modelled: JSON encodings, the compilation of bound queries to SQL and their run, repositories other than
-- the compare-and-swap and the erasure of change-sets, the HTTP, GraphQL and event delivery
-- layers, and the use cases around the aggregates. The details of an error, which
-- only decorate the answer, are left out; so is the text that names a value in a message.
pub mod Prelude
pub mod Outcome
pub mod Bytes
pub mod Keyed
pub mod Db
pub mod ServiceAccount
pub mod Domain
pub mod Formula
pub mod Fql
pub mod Application
pub mod Tests
