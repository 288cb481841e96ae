-- ===== src/Host/View/Tests.antt =====
-- Close on a host with the base and the app that needs it.
use egop.Prelude.{Text, lookup, List, [], some, none, ◌≡◌}
use egop.Host.State.{Host}
use egop.Host.View.{CloseError, close_host}
use egop.Host.View.Closing.{close_host_empties}
use egop.Host.Tests.{options, both}

close_host_empties_example :
    (r : Host × List CloseError) × (close_host options both ≡ some r)
    × ((k : Text) → lookup k (r.0).plugins ≡ none)
    × ((r.0).pending ≡ [])
    × ((r.0).pending_plugins ≡ [])
close_host_empties_example = close_host_empties options both
