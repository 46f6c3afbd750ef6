-- ===== src/Lib.antt =====
-- BizPilot AI: the backend's workflow engine, job queue, scheduler, billing core, teams and backups.
--
-- The program is a web service. A request or a schedule starts a workflow: an instance that runs the
-- steps registered for its definition up to a gate, where it completes, fails or waits for a person,
-- who approves, rejects or retries it. Jobs are rows that workers claim under a lease, run, and
-- finish or retry. AI steps consume credits that a subscription's plan grants. The parts meet in the
-- database: each is modelled as functions on its tables, which are lists of rows, and what a service
-- calls in another is a call of the other's model.
--
--   Prelude            tests on numbers, lists, integers, and tables with their statements
--   Errors             backend/src/common/errors/app-error.ts
--   Effects            an asynchronous operation: a store goes in, a result or a thrown value and a
--                      store come out, and what was written before a throw stays
--   JobQueue           backend/src/modules/scheduler/job-queue.service.ts, and retryDeadLetterJob and
--                      cancelDeadLetterJob of backend/src/modules/admin/admin.service.ts: enqueueJob
--                      is enqueue_job, claimJob is claim_job, and so on
--   Notifications      backend/src/modules/notifications/notification.service.ts
--   ProductEvents      backend/src/modules/analytics/product-event.service.ts
--   Onboarding         backend/src/modules/onboarding/onboarding.service.ts
--   Workflows          backend/src/modules/workflows/step-handler.registry.ts, and the state machine
--                      of backend/src/modules/workflows/workflow-engine.service.ts;
--                      Workflows.Steps is runStepWithRetry, Workflows.Engine is runToNextGate, and
--                      Workflows.Commands holds startWorkflow, approveInstance, rejectInstance and
--                      retryInstance
--   Billing.Credits    backend/src/modules/billing/credit-ledger.service.ts
--   Billing.Subscriptions
--                      backend/src/modules/billing/subscription.service.ts
--   Billing.Trials     backend/src/modules/billing/trial.service.ts
--   Billing.Webhooks   backend/src/modules/billing/webhook.service.ts
--   Backup.Topology    breakCycles and topologicalSort of backend/src/modules/backup/backup-core.ts
--   Backup.Artifacts   dumpDatabaseToDirectory, verifyBackupIntegrity and readTableRows of the same
--                      file, and backend/src/modules/backup/encryption.ts
--   Backup.Runs        backend/src/modules/backup/backup.service.ts
--   Schedules          backend/src/modules/scheduler/scheduled-workflow.service.ts;
--                      Schedules.Calendar is computeNextRunAt
--   Schedules.Tick     backend/src/modules/scheduler/scheduler-tick.service.ts
--   Team               backend/src/modules/team/member.service.ts
--   Team.Invitations   backend/src/modules/team/invitation.service.ts; its notifications go to the
--                      mailbox of the office, and its seats come from the subscription there
--   Examples           concrete runs
--
-- Identifiers, keys and times are natural numbers; each call is given the clock value that it
-- reads. A single SQL statement or transaction is one step. Where the code reads first and writes
-- later, what other requests commit in between is either a function on the store that the operation
-- is given (startWorkflow, runToNextGate, processWebhook, removeMember, changeMemberRole) or a sequence of single statements
-- (JobQueue.Leases). Unique constraints of backend/prisma/schema.prisma are tests in the inserts.
-- Step handlers and job handlers are parameters, and so are the cipher, the digest, JSON, UTF-8 and
-- the calendar, with what the code relies on as named hypotheses that Examples.Codec and
-- Examples.Schedules show to hold of concrete functions. The attempts of a step end at the source's
-- own limit of three, and the rounds of breakCycles at its twenty. The rounds of topologicalSort
-- and of stuckSet take as fuel the number of tables, which is enough since each round but the last
-- places one. The search for a weekday takes eight tests, enough for any week, and a tick skips at
-- most the source's 100,000 missed instants. All other loops are over lists.
--
-- What the disk refuses is an argument of a backup. The database itself is taken to carry out its
-- statements; where it does not, an operation stops there.
--
-- Not modelled: message texts, metrics, log lines, delays between attempts, HTTP routing and
-- validation, outside providers, paged queries, the SQL of a restore, and the modules not named
-- above.
mod Prelude
pub mod Errors
mod Effects
pub mod JobQueue
pub mod Notifications
pub mod ProductEvents
pub mod Onboarding
pub mod Workflows
pub mod Billing
mod Examples
pub mod Backup
pub mod Schedules
pub mod Team
