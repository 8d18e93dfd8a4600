-- ===== src/Outbox/Hooks/Examples.antt =====
-- Tests of the recorded events and of the administrative update, and their theorems at concrete inputs.
use app_common.Common.{ℕ, ◌≡◌, refl, String, false, none, some, List, [], ◌∷◌}
use app_common.Outbox.Model.{processing, Outbox, OutboxCreate}
use app_common.Outbox.Repo.{Table, claim_one, due, claimed_by}
use app_common.Outbox.Admin.{add_event, get_zombie_events}
use app_common.Outbox.Hooks.{Subject, delete_context_multi, delete_post_multi}

record Memo : Type 0 where
  key : ℕ
  title : String

abbrev memos : Subject Memo
memos = record {
  primary_key = λ m. m.key;
  pk_to_string = λ i. "memo";
  model_name = "Memo";
  payload = λ m. m.title;
  create_type = "MEMO_CREATED";
  update_type = "MEMO_UPDATED";
  delete_type = "MEMO_DELETED";
}

abbrev groceries : Memo
groceries = record { key = 1; title = "groceries" }

abbrev ideas : Memo
ideas = record { key = 2; title = "ideas" }

abbrev both : List Memo
both = groceries ∷ ideas ∷ []

abbrev gone : OutboxCreate
gone = record {
  aggregate_type = "Memo";
  aggregate_id = "memo";
  event_type = "MEMO_DELETED";
  payload = "groceries";
}

-- The first memo is deleted, the second stays, and the third never was.
delete_test :
    (delete_post_multi memos
      (1 ∷ 2 ∷ 3 ∷ [])
      1
      (ideas ∷ [])
      (delete_context_multi memos (1 ∷ 2 ∷ 3 ∷ []) both [])
      []).1
    ≡ gone ∷ []
unfolding delete_post_multi delete_context_multi
delete_test = refl

abbrev order : OutboxCreate
order = record {
  aggregate_type = "Order";
  aggregate_id = "7";
  event_type = "ORDER_PLACED";
  payload = "{}";
}

abbrev waiting : Table
waiting = (add_event 7 100 order []).1

abbrev in_work : Table
in_work = (claim_one 200 300 9 (λ i. false) waiting).1

abbrev claimed : Outbox
claimed = record {
  id = 7;
  created_at = 100;
  updated_at = 200;
  aggregate_type = "Order";
  aggregate_id = "7";
  event_type = "ORDER_PLACED";
  payload = "{}";
  status = processing;
  retry_count = 0;
  processed_at = none;
  next_attempt_at = none;
  claim_token = some 9;
  lease_expires_at = some 300;
  last_error = none;
}

in_work_test : in_work ≡ claimed ∷ []
unfolding add_event claim_one due claimed_by
in_work_test = refl

zombie_test : get_zombie_events 250 10 (λ i. false) (claimed ∷ []) ≡ claimed ∷ []
unfolding get_zombie_events
zombie_test = refl
