-- ===== src/Query/Select/Filters.antt =====
-- What a filter by names selects.
use outcome.Prelude.{string_eq, nat_eq}
use outcome.Prelude.Assoc.{Assoc}
use outcome.Std.{Std}
use outcome.Entity.{Entity}
