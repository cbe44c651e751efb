-- ===== src/Examples/Tracking.antt =====
-- The theorem on the tracker, at the approval of a stored attempt.
use vocation_os.Prelude.{true, List, [], ◌∷◌, none}
use vocation_os.Hash.{str}
use vocation_os.Lifecycle.{ApplicationAttempt}
use vocation_os.Repository.{DomainDescriptor, DomainEvent, PutInput, put_record, put_event}
use vocation_os.Tracker.{TrackerWriteContext, Stored}
use vocation_os.Examples.Base.{platform}
use vocation_os.Examples.Attempts.{first, second}

abbrev applications : DomainDescriptor ApplicationAttempt
applications = record {
  domain = "applications";
  id_of = λ a. a.attempt_id;
  validate = λ a. true;
  to_json = λ a. str a.updated_at;
  record_json = λ r. str r.value_hash;
}

abbrev create_input : PutInput ApplicationAttempt
create_input = record {
  value = first;
  expected_version = 0;
  operation_id = "REQ-00000001";
  event_id = none;
  now = 1000;
  authority = none;
  audit = none;
}

abbrev approve_input : PutInput ApplicationAttempt
approve_input = record create_input {
  value = second;
  expected_version = 1;
  operation_id = "REQ-00000002";
  now = 2000;
}

abbrev created_record : Stored
created_record = put_record platform applications create_input 0

abbrev approved_record : Stored
approved_record = put_record platform applications approve_input 1

abbrev store : List (DomainEvent ApplicationAttempt)
store = put_event platform applications create_input created_record ∷ []

abbrev later : List (DomainEvent ApplicationAttempt)
later =
    put_event platform applications create_input created_record
    ∷ put_event platform applications approve_input approved_record
    ∷ []

abbrev context : TrackerWriteContext
context = record { operation_id = "REQ-00000002"; event_id = none; authority = none; now = 2000 }
