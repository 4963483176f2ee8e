-- ===== src/Lib.antt =====
-- Verification of doug, the pull request reviewer: the parts of the Python service in api/doug that
-- decide what is reviewed, what is published about it, and who may ask.
--
-- The program. A webhook or the reconcile sweep enqueues a review job (api/doug/ingest.py); a worker
-- claims it under a lease and a generation, and ends the claim once. When the pull request is merged,
-- outcome jobs follow it: a daily run claims the mature ones of one repository
-- (api/doug/outcome_queue.py), adjudicates them against the repository's history
-- (api/doug/adjudicate.py, with dates read by api/doug/backtest/git_labels.py) and settles them, which
-- inserts the published outcomes and finishes their jobs in one transaction. Two reviews of one pull
-- request are compared by api/doug/convergence.py, which groups findings by the names of
-- api/doug/patterns.py. Access tokens have the format of api/doug/keyformat.py.
--
-- Which file models which part.
-- Prelude and its children: equality tests, lists, texts as lists of code points, integers.
-- Ingest: ingest.py over the table `store.review_jobs`. Rows has the rows and the WHERE and SET parts of
-- each statement; the parent has one function for each transaction, from the table before to the answer
-- and the table after (enqueue, claim, reclaim_stalled, release, complete, supersede, fail, and the
-- cooloff query); Op has them as the steps of a trace. `enqueue` is two transactions, `admit` and
-- `revive`, so that any other may run between them.
-- Outcomes.Rows and Outcomes.Adjudicate: adjudicate.py, one function for `_classify` and one for
-- `adjudicate`; `commit_instant` of git_labels.py.
-- Outcomes.Queue: outcome_queue.py. The parent has the rows and the queries, Settle the transactions
-- over the dictionaries of Dictionaries, Op their traces; Worker has `drain` of api/doug/outcome_worker.py, which composes them for one day.
-- Outcomes.Repair: api/doug/transfer_repair.py over the tables of Outcomes.Queue. The parent has the rows
-- and `_live_installations`, Steps `inspect`, `apply` and `rollback` over the database and the manifest;
-- a `Fate` says
-- whether the transaction of `apply` commits and whether its manifest is written.
-- Convergence: convergence.py, which is pure. Rows has the findings, the reads and the classifications,
-- Rule5 the evidence of stored hunks, Notices the grammar of settlement notices, the parent `classify`
-- and `compare`; Patterns has patterns.py, Hunks has api/doug/hunks.py, and Headline the two counts that
-- api/doug/check_run.py prints of a classification.
-- Keyformat: keyformat.py, with CRC-32 written out bit by bit.
--
-- Reviews: the review lane of api/doug/worker.py. The parent has `process_job`, one function for each
-- branch of it, over the queue of Ingest and the verdicts of Verdicts (the lookups, `save_review` and
-- `save_external_review` of api/doug/store.py); Drain has `drain` with its seen-set. A `Turn` holds what
-- GitHub, the model and the rendering answer in one attempt, and what other processes commit between
-- the worker's transactions, the two of one `enqueue` excepted. Trace, Works, Valid, Events, Lookup,
-- Published, Pass, Replay, Refines and Budget prove.
-- Retries: `retry_unposted_comments` of worker.py over the rows of store.review_jobs, with the claim, the
-- record and the selection of store.py; a `Try` holds what one job meets.
--
-- Rulings: api/doug/rulings.py, which is pure. Fences finds the `doug-rulings` blocks of a description,
-- Checks has the tests of one row (with `valid_rule` of api/doug/findings_log.py), the parent `parse`,
-- and Resolve `resolve` and the two comparisons of rules and paths. A JSON object is the list of its keys
-- with their values as far as a row reads them, and the sentences of `Skipped` are the cases of `Why`.
-- The two loops of `_blocks` are one function over the lines with the fence that is open, if any.
--
-- Reader: the coverage of a read in api/doug/reader.py. Headers reads the headers of a diff, one line at
-- a time, which is how its regular expression matches; the parent has `coverage`, `Coverage.read_of`,
-- `classify_by_coverage` and `_sent_file_patches`. A position in the list of matches is the match with
-- the matches after it, and the order in which Python meets the members of a set is an argument.
--
-- Conventions. A SQL transaction is a function from the ledger to an answer and a ledger; a
-- transaction that raises gives the ledger that it was given. Row locks make the transactions of one
-- table atomic, and an interleaving of processes is a sequence of transactions. Instants are
-- microseconds since the epoch, and the clock of a transaction is an argument of it. `datetime` values
-- that may carry an offset are a clock reading and an optional offset. Native numbers are natural;
-- where the code subtracts (a cutoff, a window's start), the model adds on the other side or uses
-- integers.
--
-- Bounds and fuel. The digits of a base-62 number are computed on fuel equal to the number, which is
-- enough since each step divides it by 62. CRC-32 wraps to 32 bits at each step. Errors are cut to 500
-- or 1000 code points as in the code. Every other function is structurally recursive.
--
-- Parameters. `datetime.fromisoformat`, SHA-256, the wording of an error, the random draws of
-- `secrets`, the Unicode tables behind `str.lower` and `str.strip`, `json.loads`, and the evidence that the daily
-- run reads of a repository (a clone and GitHub calls) are arguments of the definitions that use them,
-- and so are the answers of a review's `Turn`: the pull request, the tier of the paid read or its error,
-- and whether the rendering raises. The transfer repair takes the censor reason of an outcome's detail and
-- the two directions of the ISO form of an instant, of which one theorem asks that reading undoes writing.
--
-- Not modelled. The branches of a deployment without a database, the wait for a row lock, the ids that
-- a database assigns, and everything that only moves data: HTTP handlers, the GitHub client, the
-- reader's prompts, rendering of the check run and of the comment, tracing, migrations, the web and
-- console front ends. The attribution of reverts in git_labels.py enters as the revert map that it
-- computes.
pub mod Prelude
pub mod Ingest
pub mod Keyformat
pub mod Outcomes
pub mod Convergence
pub mod Reviews
pub mod Rulings
pub mod Reader
