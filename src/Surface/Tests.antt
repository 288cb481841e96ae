-- ===== src/Surface/Tests.antt =====
-- Two plugins, one that declares capabilities and one that declares none, at the view's theorems.
use egop.Prelude.{
  Text, codes, contains, lookup, any, text_eq, Map, ℕ, true, false, ◌||◌, if◌then◌else◌, List, [],
  ◌∷◌, none, some, ◌≡◌, ◌↔◌, refl, In,
}
use egop.Contract.Meta.{Meta, ConfigFieldSpec}
use egop.Contract.Event.{Event, origin_event, is_framework_topic}
use egop.Surface.{
  passed, undeclared, declares, publish, fs, FsGuard, guard_read, guard_write, op, op_cap,
  set_config, field_allowed, config_field_allowed, cap_fs_read, cap_fs_write, cap_config_write,
  cap_emits_events,
}
use egop.Surface.Laws.{IsGenuine, publish_iff, fs_guarded, op_guarded, set_config_guarded}

abbrev meta_with : List Text → List ConfigFieldSpec → Meta
meta_with caps config = record {
  id = codes "p";
  name = [];
  version = codes "2";
  description = [];
  homepage = [];
  license = [];
  authors = [];
  tags = [];
  provides = record {
    points = [];
    hooks = [];
    events = [];
    functions = [];
    capabilities = caps;
    config = config;
  };
  requires = record { listens = []; deps = []; tools = [] };
  slot = [];
  extensions = [];
}

abbrev open_field : ConfigFieldSpec
open_field = record {
  key = codes "k";
  description = [];
  schema = [];
  default = [];
  readable = false;
  writable = true;
  secret = false;
  extensions = [];
}

abbrev writer : Meta
writer = meta_with (cap_config_write ∷ cap_emits_events ∷ cap_fs_read ∷ codes "mail.send" ∷ []) []

abbrev target : Meta
target = meta_with [] (open_field ∷ [])

abbrev forged : Event
forged = record {
  type = codes "plugin.removed";
  sub_type = [];
  version = 0;
  source = none;
  payload = [];
  labels = [];
}

forged_dropped : publish writer 3 forged ≡ none
unfolding publish declares contains any text_eq is_framework_topic
forged_dropped = refl

abbrev sent : Event
sent = record forged { type = codes "mail.sent"; payload = codes "7" }

abbrev signed : Event
signed = record sent {
  version = 1;
  source = some (record {
    id = codes "p";
    version = codes "2";
    kind = origin_event;
    point = codes "mail.sent";
    at = 3;
  });
}

sent-signed : publish writer 3 sent ≡ some signed
unfolding publish declares contains any text_eq is_framework_topic
sent-signed = refl

publish_iff_example : (publish writer 3 sent ≡ some signed) ↔ IsGenuine writer 3 sent signed
publish_iff_example = publish_iff writer 3 sent signed

abbrev guard : FsGuard ℕ
guard = record { next = 5; plugin_id = codes "p"; can_read = true; can_write = false }

guard_handed : fs writer (some 5) ≡ some guard
unfolding fs declares contains any text_eq
guard_handed = refl

fs_guarded_example :
    (guard_read guard (λ n. n)
      ≡ (if declares writer cap_fs_read then passed 5 else undeclared cap_fs_read))
    × (guard_write guard (λ n. n)
        ≡ (if declares writer cap_fs_write then passed 5 else undeclared cap_fs_write))
    × ((declares writer cap_fs_read || declares writer cap_fs_write) ≡ true)
fs_guarded_example = fs_guarded writer 5 (λ n. n) guard guard_handed

abbrev handlers : Map (Text → ℕ)
handlers = (codes "mail.send", λ input. 42) ∷ []

op_ran : op writer ((codes "mail", codes "mail.send") ∷ []) handlers (codes "mail") [] ≡ passed 42
unfolding op op_cap declares contains any text_eq lookup
op_ran = refl

op_guarded_example :
    (declares writer (op_cap ((codes "mail", codes "mail.send") ∷ []) (codes "mail")) ≡ true)
    × (fn : Text → ℕ) × (lookup
          (op_cap ((codes "mail", codes "mail.send") ∷ []) (codes "mail"))
          handlers
        ≡ some fn)
    × (42 ≡ fn [])
op_guarded_example =
    op_guarded writer ((codes "mail", codes "mail.send") ∷ []) handlers (codes "mail") [] 42 op_ran

config_written :
    set_config {A = ℕ} writer ((codes "t", target) ∷ []) (λ id key. 1) (codes "t") (codes "k")
    ≡ passed 1
unfolding set_config config_field_allowed field_allowed declares contains any text_eq lookup
config_written = refl

set_config_guarded_example :
    (declares writer cap_config_write ≡ true)
    × (t : Meta) × (lookup (codes "t") ((codes "t", target) ∷ []) ≡ some t)
    × (f : ConfigFieldSpec) × In f t.provides.config
    × (f.key ≡ codes "k")
    × (f.writable ≡ true)
    × ◌≡◌ {A = ℕ} 1 1
set_config_guarded_example =
    set_config_guarded writer ((codes "t", target) ∷ []) (λ id key. 1) (codes "t") (codes "k") 1
      config_written
