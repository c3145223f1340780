-- ===== src/Lib.antt =====
-- Xelma's backend: predictions on price rounds, their stakes, their bets on chain and settlement.
--
-- A round opens, is locked and is settled; players stake balances on a side (UP_DOWN) or a price
-- range (LEGENDS); settlement pays the stakes out. The services share one database, which is the
-- record Db of Schema: each service is a function on it, a call that throws gives the error and the
-- state it leaves, and a transaction takes its writes back.
--
-- Base: Boolean tests, lists, tables with a key, and calls that may throw.
-- Schema: the tables of prisma/schema.prisma and the errors of src/utils/errors.ts.
-- Decimals: src/utils/decimal.util.ts and src/utils/payout.util.ts. The decimal library is the
--   parameter DecimalApi, and DecimalLaws states that comparisons are exact and that an operation is
--   rounded to 20 digits; fixed_point is a decimal type that has these laws.
-- Lifecycle: src/types/round.types.ts and src/services/round-lifecycle.service.ts (transitionRound is
--   transition_round, its conditional update compare_and_set, lockRound is lock_round).
-- Bets: src/services/bet.service.ts (recordUpDownBet and recordPrecisionBet are record_bet,
--   reconcileBet, resolveBet and failBet have their own functions).
-- PriceRange: src/utils/price-range.util.ts and the search for the winning range.
-- Resolution: src/services/resolution.service.ts (resolveRound, resolveUpDownRound,
--   resolveLegendsRound). It uses Lifecycle for the status, Bets to close bets, PriceRange and
--   Decimals for the payouts. What others commit to the rounds before and during its transaction is
--   an argument.
-- Predictions: src/services/prediction.service.ts (reserve is phase 1 of a submission, chain_phase
--   phases 2 and 3, compensate_prediction the refund) and
--   src/services/prediction-reconciliation.service.ts. Replies of the chain client, and what others
--   commit while it is asked, are arguments.
-- Breaker: src/utils/circuit-breaker.ts.
-- Retry: src/utils/retry.util.ts (withRetry is with_retry, its loop retry_from).
-- Claims: src/services/payout-reconciliation.service.ts (sweepUnclaimedWinnings,
--   reconcilePendingPayouts, reconcileSubmitted, attemptClaim and the guarded writes) and claimWinnings
--   of src/services/bet.service.ts. make_calls runs any sequence of the three.
-- Tournaments: src/services/tournament.service.ts and src/types/tournament.types.ts. The steps from
--   the participants to the payouts are tally_standings and compute_allocations; prize pools are below
--   10^17 units, so that the 20 digits of the decimal library hold every product exactly.
-- Outbox: src/services/outbox.service.ts (processOutbox is process_outbox) and
--   src/services/dead-letter-queue.service.ts. Delivery is the specification that the poller refines;
--   Exclusive has several pollers, whose claims and answers follow each other in any order.
-- Locks: src/utils/distributed-lock.ts. Redis is the parameter RedisApi, and RedisLaws states what
--   its commands promise; expiring is a store with these laws. Replicas has any number of instances,
--   whose calls and the passing of time are the steps of a schedule.
-- Sessions: src/services/multiplayer-session.service.ts. Names of rooms are numbers, 0 the empty one.
-- Tests: the theorems at concrete databases.
--
-- Amounts are numbers of 10^-8, identifiers and hashes are numbers, times are milliseconds. A pool
-- that a refund takes below zero stops at zero. There is no fuel: every loop is over a list, or
-- over the attempts that a policy allows.
--
-- Not modelled: routes, sockets, caches, metrics, logs and audit events; the price oracle, the chain
-- client and Redis beyond their replies; room locks, back-pressure, idempotency keys, schedulers and
-- the creation of rounds; the unique indexes other than the keys. A commit that others make falls
-- between the steps of a call only where an argument says so.
pub mod Base
pub mod Schema
pub mod Decimals
pub mod Lifecycle
pub mod Bets
pub mod PriceRange
pub mod Resolution
pub mod Predictions
pub mod Breaker
pub mod Retry
pub mod Claims
pub mod Tournaments
pub mod Outbox
pub mod Locks
pub mod Sessions
pub mod Tests
