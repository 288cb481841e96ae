-- ===== src/Autoload/Steps.antt =====
-- autoload/autoload.go: the runs of a watcher, with what each poll saw, the last poll first.
use egop.Prelude.{Text, Map, Bool, Option, List, [], ◌∷◌}
use egop.Autoload.{HostFace, Load, Watcher, Found, scan, poll, unload}

module _ {S : Type 0} (face : HostFace S) (is_plugin_file : Text → Bool)
    (hash_bytes : Text → Text) where
  -- Between the polls the host, which others use as well, changes as it likes; each poll finds, reads
  -- and loads what it can.
  pub data Runs : List (Map Text) → Watcher S → Type 0 where
    starts :
        (host : S)
        → Runs [] (record { units = []; world = record { host = host; next = 0; closed = [] } })
    polls :
        {seen : List (Map Text)} {s : Watcher S} (load : Text → Text → Load)
        (read : Text → Option Text) (files : List Found)
        → Runs seen s
        → Runs
            (scan is_plugin_file hash_bytes files [] ∷ seen)
            (poll face load read (scan is_plugin_file hash_bytes files []) s).0
    unloads : {seen : List (Map Text)} {s : Watcher S} → Runs seen s → Runs seen (unload face s)
    elsewhere :
        {seen : List (Map Text)} {s : Watcher S} (host : S)
        → Runs seen s
        → Runs seen (record s { world = record s.world { host = host } })
