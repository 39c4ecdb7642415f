-- ===== src/Scenarios/Answers.antt =====
-- An accepted submission at a concrete input.
use processing_platform.Prelude.{refl}
use processing_platform.Jobs.State.{state_queued}
use processing_platform.Jobs.Types.{valid, tier_for}
use processing_platform.Jobs.Key.{validate_idempotency_key, key_char}
use processing_platform.World.{
  pure, attempt, ◌>>=◌, request, arrive, settle_as, query, run_statement,
}
use processing_platform.Kafka.{publish, write_messages}
use processing_platform.Store.Sql.Base.{has_device, find_job}
use processing_platform.Store.Sql.Jobs
use processing_platform.Store.Sql.Jobs.{
  new_job, same_key, update_job, set_state, state_check, coalesce,
}
use processing_platform.Store.Queries.{create_job, update_job_state}
use processing_platform.Submitter.{job_params}
use processing_platform.Api.{
  Response, submitted, reply, queued_response, after_publish, after_create, respond_new,
  respond_acquired, submit_checked, submit_bound, submit_job,
}
use processing_platform.Api.Honoured.{Honoured, submit_job-Honoured}
use processing_platform.Scenarios.Texts.{texts, unary}
use processing_platform.Scenarios.Plant.{counter, world}

abbrev queued_answer : Response
queued_answer = reply 202 (submitted (unary 0) state_queued)

submit_job-Honoured_example :
    let r = submit_job texts counter "key-0002" 8 world in
    Honoured texts counter "key-0002" queued_answer r.0.1.db r.0.1.outbox
unfolding pure attempt ◌>>=◌ request arrive settle_as query run_statement publish write_messages
    has_device find_job new_job same_key update_job set_state state_check create_job
    update_job_state Jobs.create_job Jobs.update_job_state queued_response after_publish
    after_create respond_new respond_acquired submit_checked submit_bound submit_job valid tier_for
    validate_idempotency_key key_char job_params unary
submit_job-Honoured_example =
    submit_job-Honoured texts counter "key-0002" 8 world queued_answer refl refl
