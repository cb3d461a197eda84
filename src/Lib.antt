-- ===== src/Lib.antt =====
-- The scheduling core and the access rules of the Crater backend: a model of its Go code and proofs.
--
-- The program. Users submit tasks, which the task controller (pkg/aitaskctl) keeps in two queues per
-- user, for guaranteed and for best-effort tasks (pkg/util/queue). Every five seconds the controller
-- chooses the tasks that the quota of their account allows, creates their jobs in the cluster and
-- charges the account; events of the jobs and of the users pay back and requeue. Beside it run the
-- cleaners (pkg/cleaner), which the cron jobs (pkg/cronjob) start: they remind the owners of idle
-- and of old jobs by mail (pkg/alert) and delete the jobs, except those that an administrator has
-- locked (internal/handler/operations/lock.go). The HTTP handlers (internal/handler) work on the
-- database: users log in and get tokens, which the middleware checks on every request;
-- administrators manage the users, the accounts and their members; users share datasets, and ask for
-- the lock of a job by an approval order.
--
-- The files.
--   Prelude and its children: tests, lists, equality, association lists for Go maps, integers.
--   Queue: pkg/util/queue/queue.go, one function per method, `none` for a panic. Queue/Valid is its
--     invariant, Queue/Listing and Queue/Entries its abstract view as a list, Queue/Remove Pop and Top,
--     Queue/Holds predicates on the objects; Queue/Sorting, Queue/Reordered and Queue/Ranked are about
--     Reorder.
--   Model, Model/Key: dao/model/emias.go and the decimal texts of ids.
--   Resources, with Amounts and Exceed: pkg/aitaskctl/utils.go over an interface for Kubernetes
--     quantities with the laws of exact numbers.
--   Quota, with Totals, Ledger, Balanced and Limit: pkg/aitaskctl/quota.go.
--   TaskQueue, with UserValid, Valid and Moves: pkg/aitaskctl/taskqueue.go and userqueue.go.
--   Controller: the state of pkg/aitaskctl/controller.go and its methods on accounts; Admit is
--     admitTask, Schedule is schedule, Handlers is watchJobStatus, updateTaskStatus and TaskUpdated.
--     Valid, Steps and Scheduling prove the invariant, Admission and Selection what is admitted, Reach
--     has the runs as a relation.
--   Conditions, with History: pkg/util/status.go.
--   Lock, with Locked: internal/handler/operations/lock.go.
--   Alert, with Once: pkg/alert/alert.go and allowRepeatAlert of pkg/cleaner/low_gpu_usage.go.
--   Cleaner, with LongTime, LowUsage and Waiting, one for each file of pkg/cleaner; Classes and Spared
--     prove what is cleaned.
--   Cron, with Update: pkg/cronjob/config.go.
--   TaskTable: pkg/aitaskctl/task.go on an explicit table; Rows has its laws, and Backed the controller
--     on it, which needs no promise of the database.
--   Profiler, with Valid: pkg/aitaskctl/profiler.go.
--   Reconciler, with Settled: Reconcile of pkg/reconciler/vcjob-reconciler.go on the row of a job.
--   Server: a request handler as a computation on a state with faults to come; Passed says what is known
--     after each of its steps has passed, and Keeps what a handler leaves true.
--   Directory, with Lookup, and Model/Roles: the rows of dao/model/user.go and account.go and the queries by
--     key.
--   Token, with Claims and Protected: internal/util/token.go and internal/middleware/jwt.go over an
--     interface for the JWT library.
--   Auth: internal/handler/auth.go; Tokens has what ends in new tokens, Entry Login and Signup. Session,
--     Password, Signup, Stuck and Switch have the proofs.
--   Users, with Lockout and Names: internal/handler/user.go. Context, with Verified:
--     internal/handler/context.go but for GetQuota.
--   Accounts: internal/handler/account.go, with Manage for the accounts and Members for their users;
--     Admins, Rows, Created, Leftover, Rollback, Revoked and Doubled have the proofs.
--   Datasets, with Manage: internal/handler/dataset.go; Linked, Deleted, Shown and Visible have the proofs.
--   Approval, with Jobs: internal/handler/approvalorder.go; Review, Spacing and Check have the proofs.
--   Tests and its children: concrete data, runs, and an instance of each theorem below.
--
-- State and effects. A method with a pointer receiver is a function from the old state to the new
-- one. The database, the cluster and the profiler are a world of any type behind interfaces
-- (Services, AccountTable, Clients, Scheduler), whose calls may fail and change it; hypotheses on
-- them are the records of laws that stand beside them. A mutex makes a method one step, and the runs
-- take steps in any order. A handler is a function from a request and the tables to an answer and
-- the new tables (Server): each query takes the next of a list of faults and fails if it says so,
-- and a transaction that fails puts the old rows back but not the ids used or the cluster. Handlers
-- run one at a time. Go leaves the order of an iteration over a map open; a loop over a map takes
-- the order of an association list, and the statements hold for every such list.
--
-- Bounds. Loops are recursion on the list that they go through, so no fuel runs out; the insertion
-- sort of Reorder takes as many rounds as there are keys, and the decimal texts as many digits as
-- the number, at most. Ids of tasks are bounded by uint64 where they are parsed. The durations that
-- requests give in days wrap like int64; other times and durations are integers without its bounds,
-- and quantities are exact.
--
-- Not modelled: the texts of mails, logging, the binding of requests and JSON, routes, the handlers
-- of images and jobs, the creation and the update of datasets with their URLs, most lists, the
-- generated queries of dao/query, LDAP, bcrypt and the JWT library, the clients of Kubernetes,
-- Harbor and Prometheus, the texts of the profiles, the paged lists of tasks, the reconcilers of
-- AIJobs and of image builds, and pkg/aitaskctl/linklist.go, which nothing calls.
pub mod Prelude
pub mod Queue
pub mod Model
pub mod Resources
pub mod Quota
pub mod TaskQueue
pub mod Controller
pub mod Conditions
pub mod Lock
pub mod Alert
pub mod Cleaner
pub mod Cron
pub mod Tests
pub mod TaskTable
pub mod Profiler
pub mod Reconciler
pub mod Server
pub mod Approval
pub mod Directory
pub mod Token
pub mod Auth
pub mod Users
pub mod Datasets
pub mod Accounts
pub mod Context
