-- ===== src/Host/Replace/Tests.antt =====
-- Replacing the app of Host.Tests beside its base.
use egop.Prelude.{Text, codes, lookup, has, true, false, Option, none, some, ◌≡◌, ◌≢◌, ◌⊎◌}
use egop.Host.State.{Host, HostError}
use egop.Host.Check.{validate_contract}
use egop.Host.Replace.{replace}
use egop.Host.Replace.Results.{replace_decides}
use egop.Host.Tests.{options, app, both, both-IsQueued}

replace_decides_example :
    (h' : Host) × (err : Option HostError) × (replace options app both ≡ some (h', err))
    × ((k : Text)
        → (k ≡ codes "app")
          ⊎ (lookup k both.plugins ≡ none)
          ⊎ (lookup k h'.plugins ≡ lookup k both.plugins))
    × (((err ≡ none)
          × (has (codes "app") both.plugins ≡ true)
          × (validate_contract options both.plugins both.metas app.meta ≡ none)
          × (lookup (codes "app") h'.plugins ≡ some app))
        ⊎ ((err ≢ none)
            × (h' ≡ both)
            × ((has (codes "app") both.plugins ≡ false)
                ⊎ (validate_contract options both.plugins both.metas app.meta ≢ none))))
replace_decides_example = replace_decides options app both both-IsQueued
