-- ===== src/Execution/Operations/Sides.antt =====
-- Two halves of the writes: a relation that looks only at the ledger (counter, outbox, receipts) is
-- kept by every statement on execution_agent_jobs, and one that looks only at the jobs by the ledger's.
use tejun.Prelude.{◌≡◌, ℕ, Option, Bool}
use tejun.Sql.Tx.{modify}
use tejun.Sql.Keeps.{IsPreorder, Keeps, keeps_rules}
use tejun.Database.{Db}
use tejun.Database.Time.{Time}
use tejun.Database.Rows.{Job}
use tejun.Database.Ledger.{OutboxEvent, Receipt}
use tejun.Mutation.{next_sequence, insert_outbox, insert_receipt}
use tejun.Execution.Statements.{
  ClaimedExecutionJob, ExecutionJobResult, execution_key, insert_job, update_jobs,
}
use tejun.Execution.Claim.{take_queued, move_job}
use tejun.Execution.Complete.{ExecuteError, close_job}
use tejun.Execution.Cancel.{cancel_queued, request_running}
use tejun.Execution.Recover.{recover_jobs}
use tejun.Execution.Operations.Kept.{Writes}

pub record SameLedger (s t : Db) : Type 0 where
  pub receipts : s.receipts ≡ t.receipts
  pub outbox : s.outbox ≡ t.outbox
  pub change_sequence : s.change_sequence ≡ t.change_sequence

module _ {R : Db → Db → Type 0} (order : IsPreorder R) where
  module _ (aside : (f : Db → Db) → ((s : Db) → SameLedger (f s) s) → Keeps R (modify f)) where
    Keeps-update_jobs : (p : Job → Bool) (f : Job → Job) → Keeps R (update_jobs p f)
    Keeps-update_jobs p f = search (keeps_rules, aside)

    Keeps-insert_job : (j : Job) → Keeps R (insert_job j)
    unfolding insert_job execution_key
    Keeps-insert_job j = search (keeps_rules, order, aside)

    Keeps-take_queued : Keeps R take_queued
    unfolding take_queued
    Keeps-take_queued = search (keeps_rules, order, Keeps-update_jobs)

    Keeps-close_job :
        (job : ClaimedExecutionJob) (o : ExecutionJobResult) (e : Option ExecuteError) (at : Time)
        → Keeps R (close_job job o e at)
    unfolding close_job
    Keeps-close_job job o e at = search (keeps_rules, order, Keeps-update_jobs) depth 12

    pub ledger_writes :
        Keeps R next_sequence
        → ((e : OutboxEvent) (n : ℕ) → Keeps R (insert_outbox e n))
        → ((r : Receipt) → Keeps R (insert_receipt r))
        → Writes R
    unfolding move_job cancel_queued request_running recover_jobs
    ledger_writes n o r = record {
      order = order;
      beside = λ f core. aside f (λ s. record {
        receipts = (core s).receipts;
        outbox = (core s).outbox;
        change_sequence = (core s).change_sequence;
      });
      insert_job = Keeps-insert_job;
      take_queued = Keeps-take_queued;
      move_job = λ j s. Keeps-update_jobs _ _;
      close_job = Keeps-close_job;
      cancel_queued = λ j at. Keeps-update_jobs _ _;
      request_running = λ j. Keeps-update_jobs _ _;
      recover_jobs = λ at. Keeps-update_jobs _ _;
      next_sequence = n;
      insert_outbox = o;
      insert_receipt = r;
    }

  module _ (aside : (f : Db → Db) → ((s : Db) → (f s).jobs ≡ s.jobs) → Keeps R (modify f)) where
    pub jobs-next_sequence : Keeps R next_sequence
    unfolding next_sequence
    jobs-next_sequence = search (keeps_rules, order, aside)

    pub jobs-insert_outbox : (e : OutboxEvent) (n : ℕ) → Keeps R (insert_outbox e n)
    unfolding insert_outbox
    jobs-insert_outbox e n = search (keeps_rules, order, aside)

    pub jobs-insert_receipt : (r : Receipt) → Keeps R (insert_receipt r)
    unfolding insert_receipt
    jobs-insert_receipt r = search (keeps_rules, order, aside)
