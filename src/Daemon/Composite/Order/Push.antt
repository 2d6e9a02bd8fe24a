-- ===== src/Daemon/Composite/Order/Push.antt =====
-- The chain `commit-and-push`.
use hitch.Prelude.{Bool, true, false, List, Result, ok, err}
use hitch.Daemon.Jobs
use hitch.Daemon.Jobs.{ProtocolError, Response, CommitAndPushResult}
use hitch.Daemon.Composite
use hitch.Daemon.Composite.{Effect}
use hitch.Daemon.Composite.Order.{IsPrefix, Told}

abbrev is_ok : {A : Type 0} → Result ProtocolError A → Bool
is_ok (ok _) = true
is_ok (err _) = false

abbrev pub Good : List Effect → Result ProtocolError Response × List Effect → Type 0
Good whole (answer, es) = IsPrefix es whole × Told answer es
