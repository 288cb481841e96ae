-- ===== src/Surface/Laws.antt =====
-- host/surface.go: the guards of the view.
use egop.Prelude.{
  Text, text_eq, lookup, Map, ℕ, Bool, ◌↔◌, Option-cases, Bool-cases, true, false, ◌||◌,
  if◌then◌else◌, List, [], ◌∷◌, some, ◌≡◌, ◌≢◌, inl, inr, arith, In, here, there, text_eq_sound,
}
use egop.Contract.Meta.{Meta, ConfigFieldSpec}
use egop.Contract.Event.{Event, origin_event, envelope_version, is_framework_topic}
use egop.Surface.{
  passed, undeclared, declares, publish, fs, FsGuard, guard_read, guard_write, op, op_cap,
  field_allowed, config_field_allowed, set_config, cap_emits_events, cap_fs_read, cap_fs_write,
  cap_config_write,
}

-- What a plugin's event looks like on the bus.
pub record IsGenuine (m : Meta) (now : ℕ) (ev out : Event) : Type 0 where
  pub declared : declares m cap_emits_events ≡ true
  pub named : ev.type ≢ []
  pub free : is_framework_topic ev.type ≡ false
  pub source :
      out.source
      ≡ some (record {
        id = m.id;
        version = m.version;
        kind = origin_event;
        point = ev.type;
        at = now;
      })
  pub version : out.version ≡ envelope_version
  pub type : out.type ≡ ev.type
  pub sub_type : out.sub_type ≡ ev.sub_type
  pub payload : out.payload ≡ ev.payload
  pub labels : out.labels ≡ ev.labels

publish_sound :
    (m : Meta) (now : ℕ) (ev out : Event) → publish m now ev ≡ some out → IsGenuine m now ev out
unfolding publish
publish_sound m now ev out e = record {
  declared = ground arith;
  named = ground arith;
  free = ground arith;
  source = ground arith;
  version = ground arith;
  type = ground arith;
  sub_type = ground arith;
  payload = ground arith;
  labels = ground arith;
}

publish_complete :
    (m : Meta) (now : ℕ) (ev out : Event) → IsGenuine m now ev out → publish m now ev ≡ some out
unfolding publish
publish_complete m now ev out g = ground (
  arith, g.declared, g.named, g.free, g.source, g.version, g.type, g.sub_type, g.payload, g.labels,
)

-- Exactly this reaches the bus when a plugin publishes: an event on a topic that is neither empty nor
-- one of the framework's, of a plugin that declares event.emit, with the plugin's own identity as
-- source and the envelope's version, whatever the plugin wrote there, and else as it was given.
pub publish_iff :
    (m : Meta) (now : ℕ) (ev out : Event) → (publish m now ev ≡ some out) ↔ IsGenuine m now ev out
publish_iff m now ev out = (publish_sound m now ev out, publish_complete m now ev out)

-- The file guard that FS hands out reads exactly if fs.read is declared and writes exactly if
-- fs.write is, and at least one of them is declared.
pub fs_guarded :
    {A B : Type 0} (m : Meta) (next : A) (use_it : A → B) (g : FsGuard A)
    → fs m (some next) ≡ some g
    → (guard_read g use_it
        ≡ (if declares m cap_fs_read then passed (use_it next) else undeclared cap_fs_read))
      × (guard_write g use_it
          ≡ (if declares m cap_fs_write then passed (use_it next) else undeclared cap_fs_write))
      × ((declares m cap_fs_read || declares m cap_fs_write) ≡ true)
unfolding fs guard_read guard_write
fs_guarded m next use_it g e = ground arith

-- An extension runs only if its guarding word is declared and has a handler, and then on the
-- plugin's input; the alias table decides which word guards a short name.
pub op_guarded :
    {A : Type 0} (m : Meta) (aliases : Map Text) (ops : Map (Text → A)) (name input : Text) (a : A)
    → op m aliases ops name input ≡ passed a
    → (declares m (op_cap aliases name) ≡ true)
      × (fn : Text → A) × (lookup (op_cap aliases name) ops ≡ some fn)
      × (a ≡ fn input)
unfolding op
op_guarded m aliases ops name input a e = elim (Option-cases (lookup (op_cap aliases name) ops)) [
  | inl missing ↦ absurd (ground arith)
  | inr (fn, found) ↦ (ground arith, fn, found, ground arith)
]

field_allowed_find :
    (fs : List ConfigFieldSpec) (key : Text) (reading : Bool)
    → field_allowed fs key reading ≡ true
    → (f : ConfigFieldSpec) × In f fs
      × (f.key ≡ key)
      × ((if reading then f.readable else f.writable) ≡ true)
unfolding field_allowed
field_allowed_find [] key reading e = cc
field_allowed_find (f ∷ fs) key reading e = elim (Bool-cases (text_eq f.key key)) [
  | inl same ↦ (f, here, text_eq_sound f.key key same, rw same at e)
  | inr other ↦
      let (g, m, k, ok) = field_allowed_find fs key reading (rw other at e) in (g, there m, k, ok)
]

-- A plugin's write into another plugin's configuration reaches the host only if the writer declares
-- config.write and the target is registered and declares that field writable.
pub set_config_guarded :
    {A : Type 0} (m : Meta) (metas : Map Meta) (host_set : Text → Text → A) (id key : Text) (a : A)
    → set_config m metas host_set id key ≡ passed a
    → (declares m cap_config_write ≡ true)
      × (target : Meta) × (lookup id metas ≡ some target)
      × (f : ConfigFieldSpec) × In f target.provides.config
      × (f.key ≡ key)
      × (f.writable ≡ true)
      × (a ≡ host_set id key)
unfolding set_config config_field_allowed
set_config_guarded m metas host_set id key a e = elim (Option-cases (lookup id metas)) [
  | inl missing ↦ absurd (ground arith)
  | inr (target, found) ↦
      let allowed : field_allowed target.provides.config key false ≡ true = ground arith in
      let (f, i, k, ok) = field_allowed_find target.provides.config key false allowed in
      (ground arith, target, found, f, i, k, ok, ground arith)
]
