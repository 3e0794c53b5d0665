-- ===== src/Lib.antt =====
-- Research OS: the policies that decide what an autonomous security-research run may do.
--
-- The program plans experiments, asks a pure decision core whether each one may be executed, runs
-- the allowed ones in a worker, and admits what came of them as evidence, candidates and findings.
-- The parts modelled here are functions on frozen dataclasses, which the application services call
-- with loaded records and whose results they persist.
--
-- Core (src/research_os/core). `evaluate_execution` asks five checks and combines their answers;
-- each check is a component of its own.
--   Core/Enums, Core/Identity    enums.py, errors.py, identity.py
--   Core/Approval                approval.py: check_approval, evaluate_recorded_approval
--   Core/Authorization           authorization.py: check_authorization
--   Core/Budget                  budget.py: check_budget, allocate_experiment_budget, daily budgets
--   Core/Scope                   scope.py: check_scope, on the rules that were matched
--   Core/ScopeCompiler           scope_compiler.py: compile_scope_rules, evaluate_scope_candidate
--   Core/RateLimit               rate_limit.py: check_rate_limit
--   Core/Pricing                 pricing.py: estimate_cost
--   Core/Capability              capability.py: check_capability_authorization
--   Core/Execution               execution.py: evaluate_execution
-- Tools (src/research_os/tools): the registry of worker capabilities and the allowlist of
-- integrations, which Core/Capability reads.
--   Tools/Registry               registry.py: the records and their lookups
--   Tools/Allowlist              integration_allowlist.py
-- Research (src/research_os/research): what a run does next and what it may claim.
--   Research/Orchestration       orchestration.py: bounds, next cycle, stops, immutable settings
--   Research/Candidate           candidate.py: states, proposals and their records, with
--                                Candidate/Proposers and Candidate/Admission for its functions
--   Research/TierGate            validation/tier_gate.py: validate_required_tiers
--   Research/Severity            validation/severity.py
--   Research/Scheduler           scheduler: score_cell, schedule, and the cells of coverage/types.py
--   Research/Impact              impact: Cycle and Chain for chain.py, Kinds for the enumerations of
--                                types.py, Capabilities for capability_map.py, and Proofs for the
--                                validators of capability_map.py and validator.py
-- Data and Application (src/research_os/data, src/research_os/application): the ledger of what a run
-- consumed of its issued budget and its impact chains, and the services that write to them.
--   Data/Records                 records.py, errors.py: the records of the ledger and the mappings
--                                that a record may hold
--   Data/Ledger                  budget_ledger.py: totals, what remains, assert_within_allowance
--   Data/Store                   postgres/repositories.py: the table, insert_within_allowance
--   Data/ImpactChains            records.py, postgres: the records and tables of impact chains
--   Application/BudgetConsumption  budget_consumption.py: RecordBudgetConsumption.execute, with
--                                Envelope on what is charged, and Repeats on repeated requests
--   Application/ImpactChains     impact: RegisterImpactChain.execute, rebuild_impact_chain, and in
--                                ImpactChains/Resolver the proof resolver on the ledger
-- Platform/UrlNormalize (src/research_os/platform/url_normalize.py) normalizes a URL, and a redirect's
-- location, to the candidate that Core/ScopeCompiler decides on.
-- SafeData (src/research_os/safe_data.py) rejects and redacts secrets by their keys; the records of
-- Data use it.
-- The modules below a component (Core/Execution/Decision, Research/Candidate/Admission/Eligible)
-- hold what is proved of it, and their Examples the concrete runs. Common holds lists, texts,
-- Boolean tests, exceptions as values and JSON documents.
--
-- A function of the source is a definition of its name, a dataclass a record, an Enum a data type,
-- and a `__post_init__` that tests or changes its fields is a `new_...` that returns the record or
-- an error. An exception is an error value without its message; free texts that only explain a
-- decision are left out. An int that a constructor has tested not to be negative is a natural
-- number from there on. A str is the list of its code points; `lower` is the one of ASCII. A
-- datetime is an instant in microseconds. Tests of a Python type (`isinstance`) are given by the
-- types of the model. A mapping is the list of its entries. What a caller loads (the capability
-- registry, the clock, a fresh id) and the JSON digest are arguments, and so
-- is what the libraries compute (urlsplit, urljoin, the addresses and the idna codec) and what the
-- database does: the order of a query's rows, and whether its unique keys refuse a row. A
-- transaction is one step on the tables: the insertion that an allowance guards locks its budget's
-- row. The loops of the source run over finite sequences, so their definitions are by recursion on a
-- list, but for the depth-first search of an impact chain, which takes as fuel the number of the chain's
-- nodes: it enters a node at most once, and a theorem states that it is never cut off. The order in
-- which Python goes through a set is an argument of it, with the hypothesis that the elements stay the
-- same; so are the proof resolver and, for the tables of impact chains, ORDER BY, which leaves rows that
-- ascend strictly as they are, and a SELECT without it, which gives the rows in any order.
--
-- Not modelled: the other tables and application services, the workers, integrations, interface
-- and the rest of the platform, which are input and output; selection and the admission of evidence,
-- whose rules stand on parts that come first; the redaction of messages and exceptions. Nor are
-- Python's limits on the depth of a recursion and on a datetime, and that PostgreSQL refuses what
-- follows in a transaction once a unique key has refused a row.
pub mod Common
pub mod Tools
pub mod SafeData
pub mod Platform
pub mod Core
pub mod Data
pub mod Application
pub mod Research
