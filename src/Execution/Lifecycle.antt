-- ===== src/Execution/Lifecycle.antt =====
-- The life of a row of execution_agent_jobs: the states that the statements move it through, and what
-- of it never changes.
pub mod Rows
pub mod History
pub mod Ends
pub mod Claims
pub mod Recovery
pub mod Released
pub mod Unblocked
pub mod Oldest
use tejun.Prelude.{String, Bool, true, false, ◌≡◌, refl, List, Memᴰ, ◌∙◌}
use tejun.Database.{Db}
use tejun.Database.Rows.{JobState, Job}

-- One move: claimed, withdrawn from the queue, asked to stop, ended by the worker, ended at a restart.
abbrev pub can_move : JobState → JobState → Bool
can_move JobState.queued JobState.running = true
can_move JobState.queued JobState.cancelled = true
can_move JobState.running JobState.cancellation_requested = true
can_move JobState.running JobState.completed = true
can_move JobState.running JobState.failed = true
can_move JobState.running JobState.cancelled = true
can_move JobState.cancellation_requested JobState.completed = true
can_move JobState.cancellation_requested JobState.failed = true
can_move JobState.cancellation_requested JobState.cancelled = true
can_move JobState.cancellation_requested JobState.interrupted = true
can_move _ _ = false

-- Any number of moves.
pub data Moves : JobState → JobState → Type 0 where
  stay : (a : JobState) → Moves a a
  move : (a b c : JobState) → can_move a b ≡ true → Moves b c → Moves a c

pub Moves-joined : {a b c : JobState} → Moves a b → Moves b c → Moves a c
Moves-joined (Moves.stay a) n = n
Moves-joined (Moves.move a b c e m) n = Moves.move a b _ e (Moves-joined m n)

pub one_move : (a b : JobState) → can_move a b ≡ true → Moves a b
one_move a b e = Moves.move a b b e (Moves.stay b)

-- The same job at a later time.
pub record Follows (j k : Job) : Type 0 where
  pub job_id : k.job_id ≡ j.job_id
  pub execution_id : k.execution_id ≡ j.execution_id
  pub run_id : k.run_id ≡ j.run_id
  pub turn_id : k.turn_id ≡ j.turn_id
  pub kind : k.kind ≡ j.kind
  pub prompt_text : k.prompt_text ≡ j.prompt_text
  pub accepted_at : k.accepted_at ≡ j.accepted_at
  pub moves : Moves j.state k.state

pub Follows-same : (j : Job) → Follows j j
Follows-same j = record {
  job_id = refl;
  execution_id = refl;
  run_id = refl;
  turn_id = refl;
  kind = refl;
  prompt_text = refl;
  accepted_at = refl;
  moves = Moves.stay j.state;
}

pub Follows-joined : (i j k : Job) → Follows i j → Follows j k → Follows i k
Follows-joined i j k p q = record {
  job_id = q.job_id ∙ p.job_id;
  execution_id = q.execution_id ∙ p.execution_id;
  run_id = q.run_id ∙ p.run_id;
  turn_id = q.turn_id ∙ p.turn_id;
  kind = q.kind ∙ p.kind;
  prompt_text = q.prompt_text ∙ p.prompt_text;
  accepted_at = q.accepted_at ∙ p.accepted_at;
  moves = Moves-joined p.moves q.moves;
}

-- PRIMARY KEY (job_id): two rows with one id are one row.
abbrev pub IsUnique : List Job → Type 0
IsUnique jobs = (j k : Job) → Memᴰ j jobs → Memᴰ k jobs → j.job_id ≡ k.job_id → j ≡ k

abbrev pub AllFollowed : List Job → List Job → Type 0
AllFollowed before after = (j : Job) → Memᴰ j before → (k : Job) × Memᴰ k after × Follows j k

-- Where the key holds before, it holds after, and every job is there still.
pub record Lifecycle (s t : Db) : Type 0 where
  pub at : IsUnique s.jobs → IsUnique t.jobs × AllFollowed s.jobs t.jobs
