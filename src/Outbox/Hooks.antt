-- ===== src/Outbox/Hooks.antt =====
-- hooks.py of the outbox: the events that a service records when it creates, updates and deletes the
-- objects of a model. `R` is an object; a primary key, normalised, is its number. `events` are the
-- rows that the hook has written in the operation's transaction.
pub mod Deletions
mod Examples
use app_common.Common.{
  ℕ, String, Bool, true, false, not, ◌&&◌, Option, none, some, List, [], ◌∷◌, ◌++◌, ◌==◌,
  if◌then◌else◌, length, filter, any, map,
}
use app_common.Table.{get}
use app_common.Outbox.Model.{OutboxCreate}

-- The class with its overrides, its event types and its repository's names.
pub record Subject (R : Type 0) : Type 0 where
  pub primary_key : R → ℕ
  pub pk_to_string : ℕ → String
  pub model_name : String
  pub payload : R → String
  pub create_type : String
  pub update_type : String
  pub delete_type : String

-- `op.state["outbox_pending_delete"]`: the first entry of a key is the dict's.
abbrev pub Captured : Type 0
Captured = List (ℕ × OutboxCreate)

unfoldable pub captured_at : ℕ → Captured → Option OutboxCreate
captured_at pk [] = none
captured_at pk ((k, e) ∷ rest) = if k == pk then some e else captured_at pk rest

unfoldable pub popped : ℕ → Captured → Captured
popped pk c = filter (λ (k, e). not (k == pk)) c

abbrev pub recorded : Bool → Option OutboxCreate → List OutboxCreate → List OutboxCreate
recorded true (some e) events = events ++ e ∷ []
recorded success found events = events

unfoldable pub delete_post : ℕ → Bool → Captured → List OutboxCreate → Captured × List OutboxCreate
unfolding captured_at popped
delete_post pk success c events = (popped pk c, recorded success (captured_at pk c) events)

abbrev pub among : List ℕ → ℕ → Bool
among pks pk = any (λ p. p == pk) pks

unfoldable pub delete_posts :
    List ℕ → List ℕ → Captured → List OutboxCreate → Captured × List OutboxCreate
unfolding delete_post
delete_posts survivors [] c events = (c, events)
delete_posts survivors (pk ∷ pks) c events =
    let (c', events') = delete_post pk (not (among survivors pk)) c events in
    delete_posts survivors pks c' events'

module _ {R : Type 0} where
  unfoldable pub event_of : Subject R → String → ℕ → R → OutboxCreate
  event_of s event_type pk obj = record {
    aggregate_type = s.model_name;
    aggregate_id = s.pk_to_string pk;
    event_type = event_type;
    payload = s.payload obj;
  }

  unfoldable pub create_post : Subject R → R → List OutboxCreate → List OutboxCreate
  unfolding event_of
  create_post s obj events = events ++ event_of s s.create_type (s.primary_key obj) obj ∷ []

  unfoldable pub update_post : Subject R → Option R → List OutboxCreate → List OutboxCreate
  unfolding event_of
  update_post s none events = events
  update_post s (some obj) events = events ++ event_of s s.update_type (s.primary_key obj) obj ∷ []

  unfoldable pub capture : Subject R → ℕ → R → Captured → Captured
  unfolding event_of
  capture s pk obj c = (pk, event_of s s.delete_type pk obj) ∷ c

  abbrev captured_row : Subject R → ℕ → Option R → Captured → Captured
  captured_row s pk none c = c
  captured_row s pk (some obj) c = capture s pk obj c

  -- Before the deletion of one row.
  unfoldable pub delete_context : Subject R → ℕ → List R → Captured → Captured
  unfolding capture
  delete_context s pk rows c = captured_row s pk (get s.primary_key pk rows) c

  unfoldable pub capture_all : Subject R → List R → Captured → Captured
  unfolding capture
  capture_all s [] c = c
  capture_all s (obj ∷ rows) c = capture_all s rows (capture s (s.primary_key obj) obj c)

  -- Before the deletion of many: one query for the rows of the keys.
  unfoldable pub delete_context_multi : Subject R → List ℕ → List R → Captured → Captured
  unfolding capture_all
  delete_context_multi s pks rows c =
      capture_all s (filter (λ r. among pks (s.primary_key r)) rows) c

  -- What is still there is read again only if the counts differ.
  unfoldable pub survivors_of : Subject R → List ℕ → ℕ → List R → List ℕ
  survivors_of s pks deleted_count remaining =
      if deleted_count == length pks
      then []
      else map s.primary_key (filter (λ r. among pks (s.primary_key r)) remaining)

  unfoldable pub delete_post_multi :
      Subject R → List ℕ → ℕ → List R → Captured → List OutboxCreate → Captured × List OutboxCreate
  unfolding delete_posts survivors_of
  delete_post_multi s [] deleted_count remaining c events = (c, events)
  delete_post_multi s (pk ∷ pks) deleted_count remaining c events =
      delete_posts (survivors_of s (pk ∷ pks) deleted_count remaining) (pk ∷ pks) c events
