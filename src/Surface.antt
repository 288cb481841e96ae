-- ===== src/Surface.antt =====
-- host/surface.go: the view of the host that a plugin gets, cut to the capabilities that it declares,
-- with the guard of host/fsguard.go and the field test of host/call.go. What a method hands over to
-- (an event bus, an injected backend, another plugin) is its argument or its result.
pub mod Laws
mod Tests
use egop.Prelude.{
  Text, codes, is_empty, text_eq, contains, lookup, Map, ℕ, Bool, true, false, not, ◌&&◌, ◌||◌,
  if◌then◌else◌, List, [], ◌∷◌, Option, none, some,
}
use egop.Contract.Meta.{Meta, ConfigFieldSpec}
use egop.Contract.Event.{
  Event, EventFilter, Origin, origin_event, origin_call, envelope_version, is_framework_topic,
}

abbrev pub cap_call_plugins : Text
cap_call_plugins = codes "plugin.call"

abbrev pub cap_plugin_meta : Text
cap_plugin_meta = codes "plugin.meta"

abbrev pub cap_emits_events : Text
cap_emits_events = codes "event.emit"

abbrev pub cap_listens_events : Text
cap_listens_events = codes "event.listen"

abbrev pub cap_persist : Text
cap_persist = codes "storage.persist"

abbrev pub cap_kv : Text
cap_kv = codes "storage.kv"

abbrev pub cap_exec : Text
cap_exec = codes "exec.cmd"

abbrev pub cap_net : Text
cap_net = codes "net.access"

abbrev pub cap_fs_read : Text
cap_fs_read = codes "fs.read"

abbrev pub cap_fs_write : Text
cap_fs_write = codes "fs.write"

abbrev pub cap_config_read : Text
cap_config_read = codes "config.read"

abbrev pub cap_config_write : Text
cap_config_write = codes "config.write"

-- The errors of the view; `passed` is what the callee answers.
pub data Answer (A : Type 0) : Type 0 where
  passed : A → Answer A
  undeclared unavailable : Text → Answer A
  not_writable : Text → Text → Answer A

-- `e.caps[cap]`
unfoldable pub declares : Meta → Text → Bool
declares m cap = contains m.provides.capabilities cap

-- publish: the event that reaches the bus, or nothing where it is dropped. `now` is the clock.
unfoldable pub publish : Meta → ℕ → Event → Option Event
publish m now ev =
    if not (declares m cap_emits_events)
    then none
    else if is_empty ev.type
    then none
    else if is_framework_topic ev.type
    then none
    else some (record ev {
      version = envelope_version;
      source = some (record {
        id = m.id;
        version = m.version;
        kind = origin_event;
        point = ev.type;
        at = now;
      });
    })

-- PublishEvent
unfoldable pub publish_event : Meta → ℕ → Text → Text → Option Event
publish_event m now topic payload = publish m now (record {
  type = topic;
  sub_type = [];
  version = 0;
  source = none;
  payload = payload;
  labels = [];
})

-- Plugins and GetPlugin
unfoldable pub plugins : Meta → List Meta → List Meta
plugins m all_metas = if not (declares m cap_plugin_meta) then [] else all_metas

unfoldable pub get_plugin : Meta → Map Meta → Text → Option Meta
get_plugin m metas id = if not (declares m cap_plugin_meta) then none else lookup id metas

-- Call: the host's Call gets the caller as origin.
unfoldable pub call :
    {A : Type 0} → Meta → ℕ → (Origin → Text → Text → Text → A) → Text → Text → Text → Answer A
call m now host_call id fname input =
    if not (declares m cap_call_plugins)
    then undeclared cap_call_plugins
    else passed (
        host_call
          (record { id = m.id; version = m.version; kind = origin_call; point = fname; at = now })
          id fname input)

-- SubscribeEvent and SubscribeEventFilter: the filter handed to the bus, or nothing.
unfoldable pub subscribe_filter : Meta → Option EventFilter → Option (Option EventFilter)
subscribe_filter m f = if not (declares m cap_listens_events) then none else some f

-- Persist, KV and Net: the injected backend, `none` where there is none.
unfoldable pub backend : {A : Type 0} → Meta → Text → Option A → Option A
backend m cap injected = if not (declares m cap) then none else injected

-- fsGuard
pub record FsGuard (A : Type 0) : Type 0 where
  pub next : A
  pub plugin_id : Text
  pub can_read : Bool
  pub can_write : Bool

module _ {A : Type 0} where
  -- FS
  unfoldable pub fs : Meta → Option A → Option (FsGuard A)
  fs m none = none
  fs m (some next) =
      let can_read = declares m cap_fs_read in
      let can_write = declares m cap_fs_write in
      if not can_read && not can_write
      then none
      else some
          (record { next = next; plugin_id = m.id; can_read = can_read; can_write = can_write })

  -- ReadFile and ReadDir
  unfoldable pub guard_read : {B : Type 0} → FsGuard A → (A → B) → Answer B
  guard_read g read = if not g.can_read then undeclared cap_fs_read else passed (read g.next)

  -- WriteFile
  unfoldable pub guard_write : {B : Type 0} → FsGuard A → (A → B) → Answer B
  guard_write g write = if not g.can_write then undeclared cap_fs_write else passed (write g.next)

-- Exec
unfoldable pub exec : {A : Type 0} → Meta → Option (Text → A) → Text → Answer A
exec m none cmd = undeclared cap_exec
exec m (some run) cmd = if not (declares m cap_exec) then undeclared cap_exec else passed (run cmd)

-- opCap of host/host.go
unfoldable pub op_cap : Map Text → Text → Text
op_cap aliases name = elim (lookup name aliases) [ none ↦ name | some cap ↦ cap ]

-- Op
unfoldable pub op : {A : Type 0} → Meta → Map Text → Map (Text → A) → Text → Text → Answer A
op m aliases ops name input =
    if not (declares m (op_cap aliases name))
    then undeclared (op_cap aliases name)
    else elim (lookup (op_cap aliases name) ops) [
      | none ↦ unavailable name
      | some fn ↦ passed (fn input)
    ]

-- configFieldAllowed of host/call.go: the first field of that key decides.
unfoldable pub field_allowed : List ConfigFieldSpec → Text → Bool → Bool
field_allowed [] key reading = false
field_allowed (f ∷ fs) key reading =
    if text_eq f.key key
    then if reading then f.readable else f.writable
    else field_allowed fs key reading

unfoldable pub config_field_allowed : Map Meta → Text → Text → Bool → Bool
config_field_allowed metas id key reading = elim (lookup id metas) [
  | none ↦ false
  | some m ↦ field_allowed m.provides.config key reading
]

-- GetConfig and SetConfig; the argument is what the host answers.
unfoldable pub get_config :
    {A : Type 0} → Meta → Map Meta → (Text → Text → Option A) → Text → Text → Option A
get_config m metas host_get id key =
    if not (declares m cap_config_read) || not (config_field_allowed metas id key true)
    then none
    else host_get id key

unfoldable pub set_config :
    {A : Type 0} → Meta → Map Meta → (Text → Text → A) → Text → Text → Answer A
set_config m metas host_set id key =
    if not (declares m cap_config_write)
    then undeclared cap_config_write
    else if not (config_field_allowed metas id key false)
    then not_writable id key
    else passed (host_set id key)
