-- ===== src/Host/View.antt =====
-- host/host.go: the queries of the control plane and Close. A list that the code takes from a map
-- comes in the map's order here, where the code does not sort it.
pub mod Closing
mod Tests
use egop.Prelude.{
  Text, lookup, insert, has, ltb, ◌==◌, sort_by, Map, map, Bool, true, false, ◌&&◌, ◌||◌,
  if◌then◌else◌, List, [], ◌∷◌, ◌++◌, Option, none, some,
}
use egop.Contract.Meta.{Meta, FuncSpec}
use egop.Host.State.{Options, Plugin, Reply, HostError, Host, FnEntry}
use egop.Host.State
use egop.Host.Hooks.{seq_of}
use egop.Host.Remove.{remove}

-- In the order of registration.
unfoldable pub plugins_view : Host → List Meta
plugins_view h = sort_by (λ m. seq_of h.seq m.id) (map (λ e. e.1) h.metas)

unfoldable pub has_plugin : Host → Text → Bool
has_plugin h id = has id h.plugins

unfoldable pub ids_at : Text → Map (List Text) → List Text
ids_at c index = elim (lookup c index) [ none ↦ [] | some ids ↦ ids ]

unfoldable pub index_capabilities : Text → List Text → Map (List Text) → Map (List Text)
index_capabilities id [] index = index
index_capabilities id (c ∷ cs) index =
    index_capabilities id cs (insert c (ids_at c index ++ id ∷ []) index)

unfoldable pub index_metas : Map Meta → Map (List Text) → Map (List Text)
index_metas [] index = index
index_metas ((id, m) ∷ metas) index =
    index_metas metas (index_capabilities id m.provides.capabilities index)

unfoldable pub capability_index : Host → Map (List Text)
capability_index h = index_metas h.metas []

pub record FnView : Type 0 where
  pub plugin_id : Text
  pub spec : FuncSpec

-- Go's `<` on strings, byte by byte.
unfoldable pub text_lt : Text → Text → Bool
text_lt a [] = false
text_lt [] (y ∷ ys) = true
text_lt (x ∷ xs) (y ∷ ys) = ltb x y || x == y && text_lt xs ys

unfoldable pub insert_key : Text → List Text → List Text
insert_key k [] = k ∷ []
insert_key k (j ∷ ks) = if text_lt j k then j ∷ insert_key k ks else k ∷ j ∷ ks

-- sort.Strings
unfoldable pub sort_keys : List Text → List Text
sort_keys [] = []
sort_keys (k ∷ ks) = insert_key k (sort_keys ks)

unfoldable pub fn_views : Map FnEntry → List Text → List FnView
fn_views fns [] = []
fn_views fns (k ∷ ks) = elim (lookup k fns) [
  | none ↦ fn_views fns ks
  | some e ↦ record { plugin_id = e.plugin_id; spec = e.spec } ∷ fn_views fns ks
]

-- In the order of the "plugin.fn" keys.
unfoldable pub functions_view : Host → List FnView
functions_view h = fn_views h.fns (sort_keys (map (λ e. e.0) h.fns))

unfoldable pub applied_config : Host → Text → Option Text
applied_config h id = lookup id h.applied

pub record Snapshot : Type 0 where
  pub plugins : List Meta
  pub functions : List FnView
  pub capabilities : Map (List Text)
  pub applied : Map Text

unfoldable pub snapshot : Host → Snapshot
snapshot h = record {
  plugins = plugins_view h;
  functions = functions_view h;
  capabilities = capability_index h;
  applied = h.applied;
}

-- What Close joins: the error of a Disposer, its panic, and the error of Remove.
pub data CloseError : Type 0 where
  close_failed close_panicked : Text → Text → CloseError
  remove_failed : HostError → CloseError

-- closeDisposer of host/panicsafe.go, on a plugin that may have no Disposer.
unfoldable pub close_disposer : Text → Plugin → List CloseError
close_disposer id p = elim p.disposer [
  | none ↦ []
  | some (State.replied out) ↦ []
  | some (State.failed e) ↦ close_failed id e ∷ []
  | some (State.panicked e) ↦ close_panicked id e ∷ []
]

unfoldable pub removal_error : Option HostError → List CloseError
removal_error none = []
removal_error (some e) = remove_failed e ∷ []

unfoldable pub close_rows :
    Options → List (Text × Plugin) → Host × List CloseError → Option (Host × List CloseError)
close_rows o [] s = some s
close_rows o ((id, p) ∷ rows) (h, errs) = elim (remove o h id true) [
  | none ↦ none
  | some (h', victims, e) ↦ close_rows o rows (h', errs ++ (close_disposer id p ++ removal_error e))
]

unfoldable pub close_pending : Map Plugin → List CloseError
close_pending [] = []
close_pending ((id, p) ∷ rows) = close_disposer id p ++ close_pending rows

-- `reverse xs ++ ys`
unfoldable pub reverse_onto {ℓ} : {A : Type ℓ} → List A → List A → List A
reverse_onto [] ys = ys
reverse_onto (x ∷ xs) ys = reverse_onto xs (x ∷ ys)

-- The plugins, the last registered first.
unfoldable pub close_order : Host → List (Text × Plugin)
close_order h = reverse_onto (sort_by (λ e. seq_of h.seq e.0) h.plugins) []

unfoldable pub finish_close : Host × List CloseError → Host × List CloseError
finish_close (h, errs) =
    (record h { pending = []; pending_plugins = [] }, errs ++ close_pending h.pending_plugins)

unfoldable pub close_host : Options → Host → Option (Host × List CloseError)
close_host o h = elim (close_rows o (close_order h) (h, [])) [
  | none ↦ none
  | some s ↦ some (finish_close s)
]
