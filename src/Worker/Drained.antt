-- ===== src/Worker/Drained.antt =====
-- A batch that the queue acknowledges.
use sira_seil_cockroach_aws.Worker.Outbox.{OutboxEvent, Outbox, is_marked}
use sira_seil_cockroach_aws.Base.{◌≡◌, false, List, any}

-- The table has no row of the event that is not published.
abbrev pub IsPublished : List OutboxEvent → OutboxEvent → Type 0
IsPublished rows e = any (is_marked e) rows ≡ false
