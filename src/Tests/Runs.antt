-- ===== src/Tests/Runs.antt =====
-- Messages, sequences of calls and the rate limiter at work.
use self_organizing_multi_ag.Base.{
  ◌≡◌, refl, inl, true, false, some, List, [], ◌∷◌, arith, ◌==◌, if◌then◌else◌,
}
use self_organizing_multi_ag.Errors.{ApiError, ok, err, conflict}
use self_organizing_multi_ag.Db.{Db, Task, task_completed, ◌>>=◌}
use self_organizing_multi_ag.Table.{find, update, affected, insert, IsKeyed}
use self_organizing_multi_ag.Tasks.{task_key}
use self_organizing_multi_ag.Messages.{
  insert_message, dedup, settle_new, confirm, submit, claim_of, message_row,
}
use self_organizing_multi_ag.Messages.Dedup.{insert_message_twice}
use self_organizing_multi_ag.Service.{
  Operation, create_task, claim_task, heartbeat_task, store_message, run, TasksValid, AllFresh,
  run-TasksValid, run-Reach, run_final,
}
use self_organizing_multi_ag.Tasks.Lifecycle.{Reach}
use self_organizing_multi_ag.Limiter.{Limiter, counter_key, allow}
use self_organizing_multi_ag.Limiter.Window.{live, unless_over, spent, admits, allow_lem}
use self_organizing_multi_ag.Tests.{
  plain_task, held_task, handed_in, sample, tasks-IsKeyed, held_row, payload_is_claim,
  result_envelope, request,
}

result_stored :
    (insert_message payload_is_claim result_envelope 200 sample).0
    ≡ ok (message_row 2 result_envelope 200, true)
unfolding insert_message dedup settle_new confirm submit claim_of find update affected insert ◌>>=◌
result_stored = refl

insert_message_twice_example :
    insert_message payload_is_claim result_envelope 900
      (insert_message payload_is_claim result_envelope 200 sample).1
    ≡ (
      ok (message_row 2 result_envelope 200, false),
      (insert_message payload_is_claim result_envelope 200 sample).1,
    )
insert_message_twice_example =
    insert_message_twice payload_is_claim result_envelope 200 900 sample
      (message_row 2 result_envelope 200) true result_stored

abbrev no_claim_error : ApiError
no_claim_error = conflict "result requires a live matching claim"

lapsed_result : (insert_message payload_is_claim result_envelope 400 sample).0 ≡ err no_claim_error
unfolding insert_message dedup settle_new confirm submit claim_of find update affected insert ◌>>=◌
lapsed_result = refl

abbrev calls : List Operation
calls =
    create_task "t4" "creator" request "" 60
    ∷ claim_task "c2" "t1" "worker" 70
    ∷ heartbeat_task "t2" "worker" "c1" 80
    ∷ store_message result_envelope 200
    ∷ []

calls_fresh : AllFresh payload_is_claim calls sample
unfolding find
calls_fresh = (refl, (tt, (tt, (tt, tt))))

sample-TasksValid : TasksValid sample
sample-TasksValid = record {
  keyed = tasks-IsKeyed;
  shaped = ((refl, refl, refl, refl), ((refl, refl, refl, refl), ((refl, refl, refl, refl), tt)));
}

run-TasksValid_example : TasksValid (run payload_is_claim calls sample)
run-TasksValid_example = run-TasksValid payload_is_claim calls sample calls_fresh sample-TasksValid

run-Reach_example :
    (u : Task) × (find task_key "t2" (run payload_is_claim calls sample).tasks ≡ some u)
    × Reach held_task u
run-Reach_example =
    run-Reach payload_is_claim calls sample "t2" held_task calls_fresh sample-TasksValid held_row

abbrev judged_sample : Db
judged_sample = record sample {
  tasks = plain_task ∷ held_task ∷ record handed_in { status = task_completed } ∷ [];
}

judged_row :
    find task_key "t3" judged_sample.tasks ≡ some (record handed_in { status = task_completed })
unfolding find
judged_row = refl

judged-IsKeyed : IsKeyed task_key judged_sample.tasks
unfolding find
judged-IsKeyed = (refl, (refl, (refl, tt)))

judged-TasksValid : TasksValid judged_sample
judged-TasksValid = record {
  keyed = judged-IsKeyed;
  shaped = ((refl, refl, refl, refl), ((refl, refl, refl, refl), ((refl, refl, refl, refl), tt)));
}

judged_fresh : AllFresh payload_is_claim calls judged_sample
unfolding find
judged_fresh = (refl, (tt, (tt, (tt, tt))))

run_final_example :
    find task_key "t3" (run payload_is_claim calls judged_sample).tasks
    ≡ some (record handed_in { status = task_completed })
run_final_example =
    run_final payload_is_claim calls judged_sample "t3"
      (record handed_in { status = task_completed }) judged_fresh judged-TasksValid judged_row
      (inl refl)

abbrev one_limiter : Limiter
one_limiter = record {
  max = 2;
  window = 60;
  counters =
      record { key = "a"; n = 2; reset_at = 50 } ∷ record { key = "b"; n = 1; reset_at = 90 } ∷ [];
  next_sweep = 40;
}

counters-IsKeyed : IsKeyed counter_key one_limiter.counters
unfolding find
counters-IsKeyed = (refl, (refl, tt))

allow_lem_example :
    ((allow "a" 60 one_limiter).1 ≡ admits one_limiter (live one_limiter 60 "a"))
    × (live (allow "a" 60 one_limiter).0 70 "b" ≡ (
        if "b" == "a"
        then unless_over 70 (some (spent "a" 60 one_limiter (live one_limiter 60 "a")))
        else live one_limiter 70 "b"))
allow_lem_example = allow_lem "a" 60 one_limiter "b" 70 counters-IsKeyed (omega arith)
