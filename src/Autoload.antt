-- ===== src/Autoload.antt =====
-- autoload/autoload.go: the watcher of plugin directories. The host behind loader.HostFace, the loader
-- of packages (wasm.LoadFS), the hash and the file system are parameters; the time between two polls
-- is not modelled, and Poll holds the mutex throughout.
pub mod Steps
pub mod Instances
pub mod Accounts
pub mod Changes
pub mod Sweeps
pub mod Shapes
pub mod Sightings
pub mod Confirmation
pub mod Failures
mod Tests
use egop.Prelude.{
  Text, text_eq, is_empty, Map, lookup, insert, has, ltb, ℕ, ◌+◌, if◌then◌else◌, Bool, true, false,
  not, ◌&&◌, ◌||◌, List, [], ◌∷◌, ◌++◌, Option, none, some,
}

pub data Action : Type 0 where
  register replace remove failed : Action

-- Err of an Event, with the text of the error that it wraps.
pub data Failure : Type 0 where
  not_read : Failure
  not_loaded refused new_id_refused replace_refused replay_refused : Text → Failure

pub record Event : Type 0 where
  pub action : Action
  pub plugin_id : Text
  pub path : Text
  pub version : Text
  pub err : Option Failure

-- A *wasm.Plugin, told from others by its number, with the id and the version of its manifest.
pub record Instance : Type 0 where
  pub number : ℕ
  pub id : Text
  pub version : Text

-- The methods of loader.HostFace that the watcher calls; a text is an error.
pub record HostFace (S : Type 0) : Type 0 where
  pub register : Instance → S → S × Option Text
  pub replace : Instance → S → S × Option Text
  pub remove : Text → Bool → S → S × Option Text
  pub set_config : Text → Text → S → S × Option Text
  pub applied_config : Text → S → Option Text

-- What wasm.LoadFS answers: an error, or the id and the version of the package.
pub data Load : Type 0 where
  load_failed : Text → Load
  loaded_as : Text → Text → Load

pub record FileUnit : Type 0 where
  pub hash : Text
  pub pending : Text
  pub misses : ℕ
  pub id : Text
  pub plugin : Option Instance
  pub loaded : Bool
  pub np : Option Instance
  pub np_hash : Text
  pub err_hash : Text

-- `&unit{}`; the path is the key of the unit.
abbrev pub new_unit : FileUnit
new_unit = record {
  hash = [];
  pending = [];
  misses = 0;
  id = [];
  plugin = none;
  loaded = false;
  np = none;
  np_hash = [];
  err_hash = [];
}

-- The host, the number of the next instance, and the instances closed so far.
pub record World (S : Type 0) : Type 0 where
  pub host : S
  pub next : ℕ
  pub closed : List ℕ

pub record Watcher (S : Type 0) : Type 0 where
  pub units : Map FileUnit
  pub world : World S

-- A file that the walk of a directory reaches, with its content where it can be read.
pub record Found : Type 0 where
  pub key : Text
  pub name : Text
  pub content : Option Text

module _ (hash_bytes : Text → Text) where
  unfoldable pub see : Text → Option Text → Map Text → Map Text
  see key none seen = seen
  see key (some content) seen = insert key (hash_bytes content) seen

module _ (is_plugin_file : Text → Bool) (hash_bytes : Text → Text) where
  -- The walk: the hashes of the package files, by key.
  unfoldable pub scan : List Found → Map Text → Map Text
  scan [] seen = seen
  scan (f ∷ files) seen =
      scan files (if is_plugin_file f.name then see hash_bytes f.key f.content seen else seen)

unfoldable pub waits : FileUnit → Bool
waits u = elim u.np [ none ↦ false | some np ↦ true ]

unfoldable pub unit_at : Option FileUnit → FileUnit
unit_at none = new_unit
unit_at (some u) = u

module _ {S : Type 0} where
  unfoldable pub with_event : FileUnit × World S × Event → FileUnit × World S × List Event
  with_event (u, w, e) = (u, w, e ∷ [])

  unfoldable pub close_instance : Option Instance → World S → World S
  close_instance none w = w
  close_instance (some p) w = record w { closed = p.number ∷ w.closed }

module _ {S : Type 0} (face : HostFace S) where
  -- The answer of the host to the removal that two polls without the file lead to.
  unfoldable pub removed :
      Text → FileUnit → S × Option Text → World S → Map FileUnit × World S × List Event
  removed p u (host, some e) w = (
    (p, record u { misses = 0 }) ∷ [],
    record w { host = host },
    record {
      action = Action.remove;
      plugin_id = u.id;
      path = p;
      version = [];
      err = some (refused e);
    }
        ∷ [],
  )
  removed p u (host, none) w = (
    [],
    close_instance u.plugin (record w { host = host }),
    record { action = Action.remove; plugin_id = u.id; path = p; version = []; err = none } ∷ [],
  )

  unfoldable pub sweep_unit :
      Map Text → Text → FileUnit → World S → Map FileUnit × World S × List Event
  sweep_unit seen p u w =
      if not u.loaded
      then ((p, u) ∷ [], w, [])
      else if has p seen
      then ((p, record u { misses = 0 }) ∷ [], w, [])
      else if ltb (u.misses + 1) 2
      then ((p, record u { misses = u.misses + 1 }) ∷ [], w, [])
      else removed p u (face.remove u.id false w.host) w

  -- The first half of a poll: the units whose file is gone.
  unfoldable pub sweep : Map Text → Map FileUnit → World S → Map FileUnit × World S × List Event
  sweep seen [] w = ([], w, [])
  sweep seen ((p, u) ∷ units) w =
      let (kept, w', events) = sweep_unit seen p u w in
      let (kept', w'', events') = sweep seen units w' in (kept ++ kept', w'', events ++ events')

  -- Unload, unit by unit.
  unfoldable pub unload_unit : FileUnit → World S → World S
  unload_unit u w =
      if not u.loaded
      then close_instance u.np w
      else close_instance u.plugin (record w { host = (face.remove u.id true w.host).0 })

  unfoldable pub unload_units : Map FileUnit → World S → World S
  unload_units [] w = w
  unload_units ((p, u) ∷ units) w = unload_units units (unload_unit u w)

  unfoldable pub unload : Watcher S → Watcher S
  unload s = record { units = []; world = unload_units s.units s.world }

  -- applyChange for the content with hash h at the key p. `load` is LoadFS on the file's name.
  module _ (load : Text → Text → Load) (p : Text) (h : Text) where
    unfoldable pub failed_event : Text → Text → Failure → Event
    failed_event id version e = record {
      action = failed;
      plugin_id = id;
      path = p;
      version = version;
      err = some e;
    }

    unfoldable pub registered : Instance → FileUnit → FileUnit
    registered np u = record u {
      id = np.id;
      hash = h;
      loaded = true;
      plugin = some np;
      np = none;
      np_hash = [];
    }

    unfoldable pub retry_register :
        Instance → S × Option Text → FileUnit → World S → FileUnit × World S × Event
    retry_register np (host, none) u w = (
      registered np u,
      record w { host = host },
      record { action = register; plugin_id = np.id; path = p; version = np.version; err = none },
    )
    retry_register np (host, some e) u w =
        (u, record w { host = host }, failed_event np.id [] (refused e))

    unfoldable pub register_first :
        Instance → S × Option Text → FileUnit → World S → FileUnit × World S × Event
    register_first np (host, none) u w = (
      record u { id = np.id; hash = h; loaded = true; plugin = some np },
      record w { host = host },
      record { action = register; plugin_id = np.id; path = p; version = np.version; err = none },
    )
    register_first np (host, some e) u w = (
      record u { np = some np; np_hash = h },
      record w { host = host },
      failed_event np.id [] (refused e),
    )

    -- The new id is registered; now the old one is removed, if nothing depends on it.
    unfoldable pub retire_old :
        Instance → S × Option Text → FileUnit → World S → FileUnit × World S × Event
    retire_old np (host, some e) u w = (
      record u { id = np.id; hash = h; plugin = some np },
      record w { host = host },
      record {
        action = replace;
        plugin_id = u.id;
        path = p;
        version = np.version;
        err = some (refused e);
      },
    )
    retire_old np (host, none) u w = (
      record u { id = np.id; hash = h; plugin = some np },
      close_instance u.plugin (record w { host = host }),
      record { action = replace; plugin_id = u.id; path = p; version = np.version; err = none },
    )

    -- The unit keeps the old version, and the new content is not tried again.
    unfoldable pub drop_new :
        Instance → S → FileUnit → World S → Text → Failure → FileUnit × World S × Event
    drop_new np host u w version e = (
      record u { pending = []; err_hash = h },
      close_instance (some np) (record w { host = host }),
      failed_event u.id version e,
    )

    unfoldable pub re_identify :
        Instance → S × Option Text → FileUnit → World S → FileUnit × World S × Event
    re_identify np (host, some e) u w = drop_new np host u w np.version (new_id_refused e)
    re_identify np (host, none) u w =
        retire_old np (face.remove u.id false host) u (record w { host = host })

    unfoldable pub replay : Option Text → Text → S → S × Option Failure
    replay none id host = (host, none)
    replay (some cfg) id host = replay_result (face.set_config id cfg host)
      where
        replay_result : S × Option Text → S × Option Failure
        replay_result (host', none) = (host', none)
        replay_result (host', some e) = (host', some (replay_refused e))

    unfoldable pub replace_version :
        Instance → Option Text → S × Option Text → FileUnit → World S → FileUnit × World S × Event
    replace_version np prev (host, some e) u w = drop_new np host u w [] (replace_refused e)
    replace_version np prev (host, none) u w =
        let (host', err) = replay prev u.id host in
        (
          record u { hash = h; plugin = some np },
          close_instance u.plugin (record w { host = host' }),
          record { action = replace; plugin_id = u.id; path = p; version = np.version; err = err },
        )

    unfoldable pub load_content : Load → FileUnit → World S → FileUnit × World S × Event
    load_content (load_failed e) u w = (
      record u { pending = []; err_hash = if u.loaded then u.err_hash else h },
      w,
      failed_event u.id [] (not_loaded e),
    )
    load_content (loaded_as id version) u w =
        let np : Instance = record { number = w.next; id = id; version = version } in
        let w' : World S = record w { next = w.next + 1 } in
        if not u.loaded
        then register_first np (face.register np w.host) u w'
        else if not (text_eq id u.id)
        then re_identify np (face.register np w.host) u w'
        else replace_version np (face.applied_config u.id w.host) (face.replace np w.host) u w'

    unfoldable pub read_content : Option Text → FileUnit → World S → FileUnit × World S × Event
    read_content none u w = (record u { pending = [] }, w, failed_event u.id [] not_read)
    read_content (some content) u w = load_content (load content p) u w

    unfoldable pub apply_waiting :
        Option Instance → Option Text → FileUnit → World S → FileUnit × World S × Event
    apply_waiting none content u w = read_content content u w
    apply_waiting (some np) content u w =
        if text_eq h u.np_hash
        then retry_register np (face.register np w.host) u w
        else read_content content (record u { np = none; np_hash = [] })
            (close_instance (some np) w)

    unfoldable pub apply_change : Option Text → FileUnit → World S → FileUnit × World S × Event
    apply_change content u w = apply_waiting u.np content u w

    -- A file that a poll has seen: nothing new, known to be bad, seen for the first time, or confirmed.
    unfoldable pub observe : Option Text → FileUnit → World S → FileUnit × World S × List Event
    observe content u w =
        if u.loaded && text_eq h u.hash
        then (u, w, [])
        else if not (waits u) && text_eq u.err_hash h
        then (u, w, [])
        else if not (text_eq u.pending h)
        then (record u { pending = h }, w, [])
        else with_event (apply_change content u w)

  module _ (load : Text → Text → Load) (read : Text → Option Text) where
    -- The second half of a poll.
    unfoldable pub apply_seen :
        Map Text → Map FileUnit → World S → Map FileUnit × World S × List Event
    apply_seen [] units w = (units, w, [])
    apply_seen ((p, h) ∷ seen) units w =
        let (u, w', events) = observe load p h (read p) (unit_at (lookup p units)) w in
        let (units', w'', events') = apply_seen seen (insert p u units) w' in
        (units', w'', events ++ events')

    unfoldable pub poll : Map Text → Watcher S → Watcher S × List Event
    poll seen s =
        let (kept, w, events) = sweep seen s.units s.world in
        let (units, w', events') = apply_seen seen kept w in
        (record { units = units; world = w' }, events ++ events')
