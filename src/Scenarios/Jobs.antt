-- ===== src/Scenarios/Jobs.antt =====
-- A generator for one payload at a time, with two requests of which the second has no parent.
use op_rbuilder.Base.{ℕ, ◌≤◌, ◌≡◌, refl, true, none, some}
use op_rbuilder.Generator.{
  Attributes, Client, GeneratorError, missing_parent_block, Service, with_builder, new_payload_job,
}
use op_rbuilder.Generator.Live.{
  live, requested, Steps, start, then_step, at_most_one_live, refused-none_live,
}

abbrev client : Client
client = record { latest_header = some (some 7); sealed_header_by_hash = λ hash. some none }

abbrev attributes : Attributes
attributes = record { payload_id = 1; parent = 0; timestamp = 1000 }

abbrev orphan : Attributes
orphan = record { payload_id = 2; parent = 9; timestamp = 1002 }

abbrev one_job : Service ℕ
one_job = (new_payload_job client 999 attributes (with_builder true 5)).1

abbrev one_step : Steps (with_builder true 5) one_job
one_step = then_step start (requested client 999 attributes)

one_job-live : live one_job ≡ 1
unfolding new_payload_job with_builder op_rbuilder.Generator.parent_header
one_job-live = refl

at_most_one_live_example : live one_job ≤ 1
at_most_one_live_example = at_most_one_live 5 one_job one_step

refused-none_live_example : live (new_payload_job client 1001 orphan one_job).1 ≡ 0
unfolding new_payload_job with_builder op_rbuilder.Generator.parent_header
refused-none_live_example =
    refused-none_live 5 one_job client 1001 orphan (missing_parent_block 9) one_step refl
