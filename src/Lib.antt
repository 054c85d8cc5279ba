-- ===== src/Lib.antt =====
-- Models of the decision and transaction core of the repository, with the theorems that make it
-- correct. The program lets a buyer's side decide on software purchases under explicit rules, keeps
-- the resulting stack as versioned snapshots that only approved patches change, and runs an
-- exchange between a buyer and a seller whose outcome leads to an approval and a payment handoff.
--
-- The parts, by file:
-- - Base and its modules: shared helpers. Results holds the exceptions of the program as an error
--   type and the monad that carries them; Dict is a Python dict as an association list in insertion
--   order; Sort is Python's stable `sorted`; Order compares texts by code points, as Python does; Lex
--   builds the orders of tuples, Fractions has exact fractions, Shuffle reorderings of a list.
-- - Domain.Ids, Domain.Time (python/domain/models.py): formats of identifiers, hashes and datetimes.
--   Domain.Enums (python/domain/enums.py). Domain.Json: JSON values with the order of their keys.
-- - Domain.Approval (python/domain/state_machines.py, `ApprovalTransitionService`): an approval binds
--   one payload hash. Domain.Handoff (`PaymentHandoffTransitionService`, and `PaymentHandoff` of
--   python/domain/models.py). Domain.Money (python/domain/money.py): amounts in cents.
-- - Domain.Publication (python/domain/publication.py): the copy of a payload by an allowlist of dotted
--   paths, and the search for denied keys. Copy, Kept and Steps are about a single path, Published
--   about the whole copy, Refused about its exceptions. That `str.lower` changes nothing the second
--   time is a named hypothesis there, since a segment of a path is lowered once and a key twice.
-- - Rules (python/domain/rules.py): Rules.Value has the Python values of a context, with Python's
--   equality and membership; Rules.Path resolves dotted paths; Rules itself has conditions and
--   expressions. Totality, Kleene and Stability hold what is proved of `evaluate`.
-- - Decision (python/decision_engine/evaluation.py and models.py): a candidate goes through
--   availability, evidence, the buyer's constraints, the seller's rules and its dependencies, in this
--   order, and a set of candidates is evaluated by identifier. It uses Rules for both kinds of rules,
--   each with a context of its own. Decision.Plans has the solution plans with their exact scores, and
--   Decision.Ranking (python/decision_engine/ranking.py) ranks them and selects the winner; Comparison
--   says on the plans' fields which of two comes first, Rounding what the key does to a coverage, and
--   Ranked is about the result. Decision.Bounds and its module Envelope (python/decision_engine/bounds.py) have
--   interval bounds of what a key is made of, and decide whether the winner is stable under them.
--   Decision.Counterfactual (python/decision_engine/counterfactual.py) compares two winners.
-- - Stack.Models and Stack.Graph (python/stackfile/models.py): nodes, edges, snapshots, and
--   `_validate_graph` with the depth-first search for cycles. Stack.Patch
--   (python/stackfile/patches.py): `validate_patch` runs the operations over the dicts of nodes and
--   edges (a `Draft`), closes the draft into the next snapshot, and so calls Stack.Graph.
-- - Exchange (python/domain/bilateral_exchange.py): `compile_party_command` moves a case. History
--   composes the validation of a command and its compilation into whole histories.
-- - Contracts (python/domain/exchange_contracts.py): Manifest has the release of fields to the other
--   party, Offer the versions of an offer, their approval and the check of a counteroffer, Transfer the
--   envelopes, receipts and payment handoffs. Negotiation composes the validation of an offer and the
--   check of a counteroffer into chains.
-- - Worker.Message and Worker.Queue (services/worker/sira_worker/queue_consumer.py): one delivery of a
--   message, with the receipts that recognize a second one. Worker.Outbox
--   (services/worker/sira_worker/outbox_dispatcher.py): a batch of events to the queue, with the marks
--   of what was acknowledged. The tables of the database are lists of rows.
--
-- Conventions. A function that raises returns a `Result`; `__post_init__` is a function from the
-- fields that were given to the fields that are kept. Functions of libraries are parameters: the
-- content hash of a payload, `str.casefold`, `str.lower`, `str.upper`, the URL parser, the parsing
-- of texts as decimals and dates, and so are the queue, its publisher and the clock of the worker.
-- Instants are natural numbers of microseconds. The recursion of the cycle search is bounded by the
-- interpreter's limit on nested calls, which is a parameter `limit`: with more room than there are
-- nodes the search always answers, since a path of open calls never visits a node twice.
-- Fractions are of non-negative numbers; their order is by cross multiplication, so the reduction to
-- lowest terms is left out. `CoverageBounds` checks nothing, so that the source would take a negative
-- ratio there, which the model has not. The coverage in a ranking key is rounded to the 28 digits of
-- the decimal context, as the unary minus in `ranking_key` does, with as many turns as the number has
-- places, which are enough for a coverage of at most one; the limits of a decimal's exponent are left
-- out. Decimals are finite: an infinite one is neither a value of a context nor what a text reads as.
-- The parameter for the URL parser is the whole test of a destination, the parser and the comparisons
-- of the parts that it returns: what is shown holds for any such test.
--
-- Not modelled: loaders from dicts and the coercion of enumeration members from text, sets as rule
-- values, the comparison of mappings with equal entries in different orders, persistence, the HTTP
-- service, the worker that qualifies candidates, the agents and the web application.
pub mod Base
pub mod Domain
pub mod Rules
pub mod Stack
pub mod Exchange
pub mod Decision
pub mod Contracts
pub mod Worker
