-- ===== src/Host/Tests.antt =====
-- A small host: "base" holds the slot "store" and offers a function, "app" needs both. The theorems
-- about the host at these inputs.
use egop.Prelude.{
  In, ◌↔◌, Bool, ◌⊎◌, Text, codes, text_eq, contains, lookup, insert, delete, any, filter, sort_by,
  insert_by, has, ℕ, ◌≤◌, true, false, length, if◌then◌else◌, List, [], ◌∷◌, Option, none, some,
  ◌≡◌, ◌≢◌, ◌⊎◌, refl, here,
}
use egop.Contract.Glob.{split, has_byte, push}
use egop.Contract.Meta.{Meta, FuncSpec, Dependency, DependencyKind, SlotSpec, point_id, event_id}
use egop.Host.State.{Options, Plugin, Reply, replied, Host, HostError, Effect, emit}
use egop.Host.State
use egop.Host.Slots.{
  find_slot, is_builtin, slot_satisfied, slot_satisfied_excluding, missing, unavailable,
  slot_misses, slot_check,
}
use egop.Host.Version.{
  version_at_least, segments_at_least, segment, atoi, trim_space, trim_left, is_space, parse_digits,
  parse_uint, positive, negative, int_eq, int_gt,
}
use egop.Host.Check.{
  has_bad_name_chars, is_init, version_of, dep_satisfied, init_deps_satisfied, bad_function_name,
  check_functions, check_shapes, check_dep, check_deps, check_slot, validate_contract,
}
use egop.Host.Hooks.{rebuild_hook_decls, declare_rows, declare_hooks, seq_of}
use egop.Host.Register.{
  fn_key, add_functions, register_functions, surface_effects, remove_pending, remove_first, enter,
  commit, register_locked, announce, announced, register_one, finish_register, register_with,
  split_pending, after_retry, register_ready, retry, register, register_lazy, RegisterStatus,
  status_pending, with_status,
}
use egop.Host.Remove.{
  slot_of, dep_broken, deps_broken, broken_by, dependents_loop, dependents, undo_effect,
  close_effects, drop_fns, drop_plugin, note_version, sweep, removed_event, finish_remove, cascade,
  remove,
}
use egop.Undo.{close, run_all, collect}
use egop.Host.Remove.Results.{remove_total, remove_exact}
use egop.Host.Remove.Dependents.{remove_refuses}
use egop.Host.Remove.Needs.{Needs}
use egop.Host.Register.Closure.{IsRegistry, register-IsRegistry}
use egop.Host.Register.Waiting.{IsQueued, register-Returns}
use egop.Host.Register.Keys.{fn_key-injective}
use egop.Host.Register.Results.{register_keeps, register_decides}
use egop.Host.Register.Orphans.{register_orphan}
use egop.Host.Invariant.{
  remove-IsRegistry, empty, Reach, start, registers, registers_lazily, Reach-IsRegistry,
}

-- What a run of the host computes through.
runs : Unit {0}
unfolding text_eq contains lookup insert delete any filter sort_by insert_by split has_byte push
    point_id event_id emit find_slot is_builtin slot_satisfied slot_satisfied_excluding missing
    unavailable slot_misses slot_check version_at_least segments_at_least segment atoi trim_space
    trim_left is_space parse_digits parse_uint positive negative int_eq int_gt has_bad_name_chars
    is_init version_of dep_satisfied init_deps_satisfied bad_function_name check_functions
    check_shapes check_dep check_deps check_slot validate_contract rebuild_hook_decls declare_rows
    declare_hooks seq_of fn_key add_functions register_functions surface_effects remove_pending
    remove_first enter commit register_locked announce announced register_one finish_register
    register_with split_pending after_retry register_ready retry register register_lazy with_status
    slot_of dep_broken deps_broken broken_by dependents_loop dependents undo_effect close_effects
    drop_fns drop_plugin note_version sweep removed_event finish_remove cascade remove close run_all
    collect
runs = tt

abbrev func : Text → FuncSpec
func name = record { name = name; description = []; input = []; output = []; extensions = [] }

abbrev needs : Text → Text → Text → Dependency
needs plugin slot version = record {
  plugin = plugin;
  slot = slot;
  kind = DependencyKind.init;
  min_version = version;
  extensions = [];
}

abbrev meta_of : Text → Text → Text → List FuncSpec → List Dependency → Meta
meta_of id version slot functions deps = record {
  id = id;
  name = id;
  version = version;
  description = [];
  homepage = [];
  license = [];
  authors = [];
  tags = [];
  provides = record {
    points = [];
    hooks = [];
    events = [];
    functions = functions;
    capabilities = [];
    config = [];
  };
  requires = record { listens = []; deps = deps; tools = [] };
  slot = slot;
  extensions = [];
}

abbrev echo : Text → Text → Reply
echo name input = replied input

abbrev plugin_of : ℕ → Meta → Plugin
plugin_of handle m = record {
  handle = handle;
  meta = m;
  call_func = some echo;
  apply_config = none;
  surface_aware = false;
  disposer = none;
}

abbrev store_slot : SlotSpec
store_slot = record {
  id = codes "store";
  doc = [];
  provides = [];
  hooks = [];
  events = [];
  functions = codes "get" ∷ [];
  capabilities = [];
  config = [];
  listens = [];
  needs_tools = [];
  needs = [];
  builtin = false;
  extensions = [];
}

abbrev pub options : Options
options = record {
  slot_lookup = some (λ id. if text_eq id (codes "store") then some store_slot else none);
  tool_names = none;
}

abbrev pub base : Plugin
base =
    plugin_of 1 (meta_of (codes "base") (codes "1.10") (codes "store") (func (codes "get") ∷ []) [])

abbrev pub app : Plugin
app = plugin_of 2 (
    meta_of (codes "app") (codes "1") [] []
      (needs (codes "base") [] (codes "1.9") ∷ needs [] (codes "store") [] ∷ []))

abbrev after : Option (Host × Option HostError) → Host
after none = empty
after (some r) = r.0

abbrev host_of : List Plugin → Host → Host
host_of [] h = h
host_of (p ∷ ps) h = host_of ps (after (register options p h))

-- The app waits for the base and is registered with it.
abbrev lazily : Option (Host × RegisterStatus × Option HostError) → Host
lazily none = empty
lazily (some r) = r.0

abbrev removed : Option (Host × List Text × Option HostError) → Host
removed none = empty
removed (some r) = r.0

abbrev pub waiting : Host
waiting = lazily (register_lazy options app empty)

abbrev pub both : Host
both = after (register options base waiting)

waiting_first : waiting.pending ≡ codes "app" ∷ []
unfolding runs
waiting_first = refl

both_registered :
    (has (codes "app") both.plugins ≡ true)
    × (has (codes "base") both.plugins ≡ true)
    × (both.pending ≡ [])
unfolding runs
both_registered = (refl, refl, refl)

depended : dependents options both (codes "base") ≡ codes "app" ∷ []
unfolding runs
depended = refl

abbrev based : Host
based = after (register options base empty)

based_ran : register options base empty ≡ some (based, none)
unfolding runs
based_ran = refl

both_lazy : register_lazy options app empty ≡ some (waiting, status_pending, none)
unfolding runs
both_lazy = refl

both_ran : register options base waiting ≡ some (both, none)
unfolding runs
both_ran = refl

Reach-waiting : Reach options waiting
Reach-waiting = registers_lazily app status_pending none start both_lazy

Reach-both : Reach options both
Reach-both = registers base none Reach-waiting both_ran

Reach-IsRegistry_example : IsRegistry options both
Reach-IsRegistry_example = Reach-IsRegistry options Reach-both

both-IsRegistry : IsRegistry options both
both-IsRegistry = Reach-IsRegistry options Reach-both

waiting-IsRegistry : IsRegistry options waiting
waiting-IsRegistry = Reach-IsRegistry options Reach-waiting

register-IsRegistry_example : IsRegistry options both
register-IsRegistry_example =
    register-IsRegistry options base waiting both none waiting-IsRegistry both_ran

pub waiting-IsQueued : IsQueued waiting
unfolding runs
waiting-IsQueued = (refl, refl, tt)

based_found : lookup (codes "base") based.plugins ≡ some base
unfolding runs
based_found = refl

app_ran : register options app based ≡ some (after (register options app based), none)
unfolding runs
app_ran = refl

register-Returns_example :
    (r : Host × Option HostError) × (register options base waiting ≡ some r)
    × IsQueued r.0
    × (length (r.0).pending ≤ length waiting.pending)
register-Returns_example = register-Returns options base waiting waiting-IsQueued

register_keeps_example :
    lookup (codes "base") (after (register options app based)).plugins ≡ some base
register_keeps_example =
    register_keeps options app based (after (register options app based)) none (codes "base") base
      based_found app_ran

register_decides_example :
    ((◌≡◌ {A = Option HostError} none none) × (lookup (codes "base") both.plugins ≡ some base))
    ⊎ ((◌≢◌ {A = Option HostError} none none)
        × (both.plugins ≡ waiting.plugins)
        × (both.metas ≡ waiting.metas))
register_decides_example = register_decides options base waiting both none both_ran

-- Removing the base with a cascade takes the app along.
abbrev swept : Host
swept = removed (remove options both (codes "base") true)

swept_ran :
    remove options both (codes "base") true ≡ some (swept, codes "base" ∷ codes "app" ∷ [], none)
unfolding runs
swept_ran = refl

remove-IsRegistry_example : IsRegistry options swept
remove-IsRegistry_example =
    remove-IsRegistry options both swept (codes "base") true (codes "base" ∷ codes "app" ∷ []) none
      both-IsRegistry swept_ran

remove_exact_example :
    (lookup (codes "app") swept.metas ≡ (
      if contains (codes "base" ∷ codes "app" ∷ []) (codes "app")
      then none
      else lookup (codes "app") both.metas))
    × (lookup (codes "app") swept.plugins ≡ (
        if contains (codes "base" ∷ codes "app" ∷ []) (codes "app")
        then none
        else lookup (codes "app") both.plugins))
    × (lookup (codes "app") swept.applied ≡ (
        if contains (codes "base" ∷ codes "app" ∷ []) (codes "app")
        then none
        else lookup (codes "app") both.applied))
remove_exact_example =
    remove_exact options both swept (codes "base") true (codes "base" ∷ codes "app" ∷ []) none
      swept_ran (codes "app")

remove_total_example :
    (r : Host × List Text × Option HostError) × (remove options both (codes "base") true ≡ some r)
remove_total_example = remove_total options both (codes "base") true

base_registered : has (codes "base") both.plugins ≡ true
unfolding runs
base_registered = refl

remove_refuses_example :
    ((k : Text)
      → In k (dependents options both (codes "base")) ↔ Needs options both.metas (codes "base") k)
    × (((dependents options both (codes "base") ≢ [])
          × (remove options both (codes "base") false
              ≡ some (
                both,
                [],
                some (State.still_required (codes "base") (dependents options both (codes "base"))),
              )))
        ⊎ ((dependents options both (codes "base") ≡ [])
            × ((cascading : Bool)
                → (h' : Host) × (remove options both (codes "base") cascading
                    ≡ some (h', codes "base" ∷ [], none)))))
remove_refuses_example = remove_refuses options both (codes "base") base_registered

fns_valid : check_functions (codes "a") (func (codes "c") ∷ []) ≡ none
unfolding runs
fns_valid = refl

fn_key-injective_example : (codes "a" ≡ codes "a") × (codes "c" ≡ codes "c")
fn_key-injective_example =
    fn_key-injective (codes "a") (codes "a") (func (codes "c") ∷ []) (func (codes "c") ∷ [])
      (func (codes "c")) (func (codes "c")) fns_valid fns_valid here here refl

-- A plugin that names its function twice.
abbrev doubled : Plugin
doubled =
    plugin_of 3 (meta_of (codes "d") (codes "1") [] (func (codes "f") ∷ func (codes "f") ∷ []) [])

doubled_facts :
    (has (codes "d") empty.plugins ≡ false)
    × (validate_contract options empty.plugins empty.metas doubled.meta ≡ none)
    × (has (fn_key (codes "d") (codes "f")) empty.fns ≡ false)
unfolding runs
doubled_facts = (refl, refl, refl)

register_orphan_example :
    (h' : Host) × (register options doubled empty
      ≡ some (h', some (State.function_conflict (codes "d") (codes "f"))))
    × (has (codes "d") h'.plugins ≡ false)
    × (lookup (fn_key (codes "d") (codes "f")) h'.fns
        ≡ some (record { plugin_id = codes "d"; spec = func (codes "f"); provider = echo }))
register_orphan_example =
    register_orphan options doubled empty echo (func (codes "f")) (func (codes "f")) [] refl
      doubled_facts.0 doubled_facts.1 refl refl refl doubled_facts.2

pub both-IsQueued : IsQueued both
unfolding runs
both-IsQueued = tt

pub base_found : lookup (codes "base") both.plugins ≡ some base
unfolding runs
base_found = refl
