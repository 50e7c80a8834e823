-- ===== src/Generator.antt =====
-- crates/op-rbuilder/src/builders/generator.rs: the jobs that build payloads, their cancellation
-- tokens and their cells. A token is a number, and the service records which are cancelled; the
-- build itself, which a job spawns, is seen as the values that it sets in the job's cell.
pub mod Live
use op_rbuilder.Base.{
  ℕ, suc, ◌+◌, Bool, true, false, not, ◌||◌, Option, none, some, List, [], ◌∷◌, if◌then◌else◌, ◌==◌,
  leb, contains, saturating_sub, Result, ok, err, ◌>>=◌, ok_or,
}
use op_rbuilder.Transactions.{Hash}

abbrev pub Token : Type 0
Token = ℕ

-- The fields of the payload attributes that the generator reads
pub record Attributes : Type 0 where
  pub payload_id : ℕ
  pub parent : Hash
  pub timestamp : ℕ

-- The node's headers, by their hashes: none where the provider fails, and no header where there is
-- none.
pub record Client : Type 0 where
  pub latest_header : Option (Option Hash)
  pub sealed_header_by_hash : Hash → Option (Option Hash)

pub data GeneratorError : Type 0 where
  provider_error : GeneratorError
  missing_parent_block : Hash → GeneratorError

-- `BlockPayloadJob`: `deadline` is the time at which it ends, in seconds, `cell` the content of its
-- `BlockCell`.
pub record PayloadJob (Payload : Type 0) : Type 0 where
  pub parent : Hash
  pub attributes : Attributes
  pub cell : Option Payload
  pub cancel : Token
  pub deadline : ℕ

-- `job_deadline`, in seconds from now
unfoldable pub job_deadline : ℕ → ℕ → ℕ
job_deadline unix_timestamp_secs unix_now =
    let duration_until = saturating_sub unix_timestamp_secs unix_now in
    if duration_until == 0 then 1 else duration_until

-- The generator, and the jobs that it has made, the newest first. `next_token` is the token that
-- `CancellationToken::new` makes next.
pub record Service (Payload : Type 0) : Type 0 where
  pub ensure_only_one_payload : Bool
  pub extra_block_deadline : ℕ
  pub last_payload : Token
  pub next_token : Token
  pub cancelled : List Token
  pub jobs : List (PayloadJob Payload)

-- The hash of the parent's header; the hash of zeros asks for the latest.
unfoldable pub parent_header : Client → Attributes → Result GeneratorError Hash
parent_header client attributes =
    ok_or provider_error (
      if attributes.parent == 0
      then client.latest_header
      else client.sealed_header_by_hash attributes.parent)
    >>= λ found. ok_or (missing_parent_block attributes.parent) found

module _ {Payload : Type 0} where
  -- `BlockPayloadJobGenerator::with_builder`
  unfoldable pub with_builder : Bool → ℕ → Service Payload
  with_builder ensure_only_one_payload extra_block_deadline = record {
    ensure_only_one_payload = ensure_only_one_payload;
    extra_block_deadline = extra_block_deadline;
    last_payload = 0;
    next_token = 1;
    cancelled = [];
    jobs = [];
  }

  -- `CancellationToken::cancel`
  unfoldable pub cancel : Token → Service Payload → Service Payload
  cancel t s = record s { cancelled = t ∷ s.cancelled }

  unfoldable pub is_cancelled : Service Payload → Token → Bool
  is_cancelled s t = contains s.cancelled t

  -- The token of a new job
  unfoldable pub new_token : Service Payload → Token × Service Payload
  unfolding cancel
  new_token s =
      let made = record s { next_token = suc s.next_token } in
      if s.ensure_only_one_payload
      then (s.next_token, record (cancel s.last_payload made) { last_payload = s.next_token })
      else (s.next_token, made)

  unfoldable pub spawn_job : ℕ → Attributes → Token → Hash → Service Payload → Service Payload
  unfolding job_deadline
  spawn_job now attributes token parent s = record s {
    jobs =
        record {
          parent = parent;
          attributes = attributes;
          cell = none;
          cancel = token;
          deadline = now + (job_deadline attributes.timestamp now + s.extra_block_deadline);
        }
        ∷ s.jobs;
  }

  -- `new_payload_job`: a missing parent is found after the token has been replaced.
  unfoldable pub new_payload_job :
      Client → ℕ → Attributes → Service Payload → Result GeneratorError (Unit {0}) × Service Payload
  unfolding new_token spawn_job
  new_payload_job client now attributes s =
      let (token, s') = new_token s in
      elim (parent_header client attributes) [
        | err e ↦ (err e, s')
        | ok parent ↦ (ok tt, spawn_job now attributes token parent s')
      ]

  -- `resolve_kind` of a job: the value that the future gives when it is polled at once
  unfoldable pub resolve_kind :
      PayloadJob Payload → Service Payload → Option Payload × Service Payload
  unfolding cancel
  resolve_kind job s = (job.cell, cancel job.cancel s)

  -- `poll` of a job: whether it is ready
  unfoldable pub poll : ℕ → PayloadJob Payload → Service Payload → Bool × Service Payload
  unfolding cancel is_cancelled
  poll now job s =
      if leb job.deadline now then (true, cancel job.cancel s) else (is_cancelled s job.cancel, s)

  -- `BlockCell::set` by the build of the job with the token
  abbrev pub set_cell : Token → Payload → List (PayloadJob Payload) → List (PayloadJob Payload)
  set_cell t value [] = []
  set_cell t value (j ∷ js) =
      (if j.cancel == t then record j { cell = some value } else j) ∷ set_cell t value js

  unfoldable pub set : Token → Payload → Service Payload → Service Payload
  set t value s = record s { jobs = set_cell t value s.jobs }
