-- ===== src/Services/Processor.antt =====
-- Writes a ServiceSet to the API server: internal/serviceset/processor.go.
use kcm.Prelude.{Option, none, some, String}
use kcm.Api.{ServiceSet, ServiceSetOperation}

-- The answer of the API server to a Create or an Update.
pub data Written : Type 0 where
  written already_exists conflict : Written
  refused : String → Written

-- The call that is made.
pub data Call : Type 0 where
  create_call update_call : ServiceSet → Call

-- What `CreateOrUpdateServiceSet` calls, if anything.
unfoldable pub write_call : ServiceSetOperation → ServiceSet → Option Call
write_call ServiceSetOperation.create set = some (create_call set)
write_call ServiceSetOperation.update set = some (update_call set)
write_call ServiceSetOperation.none set = none

-- The error that it returns after the API server's answer: an object that exists already and a
-- conflicting update are no errors, since the owner is queued again by the ServiceSet's events.
unfoldable pub write_error : ServiceSetOperation → Written → Option String
write_error ServiceSetOperation.create written = none
write_error ServiceSetOperation.create already_exists = none
write_error ServiceSetOperation.create conflict = some "failed to create ServiceSet: conflict"
write_error ServiceSetOperation.create (refused e) = some e
write_error ServiceSetOperation.update written = none
write_error ServiceSetOperation.update conflict = none
write_error ServiceSetOperation.update already_exists =
    some "failed to update ServiceSet: already exists"
write_error ServiceSetOperation.update (refused e) = some e
write_error ServiceSetOperation.none answer = none
