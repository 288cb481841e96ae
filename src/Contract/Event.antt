-- ===== src/Contract/Event.antt =====
-- contract/contract.go: the exchange envelope, its origin, the subscription filter and the topics
-- that the framework keeps for itself.
pub mod Filters
mod Tests
use egop.Prelude.{
  Text, codes, text_eq, is_empty, lookup, Map, ℕ, if◌then◌else◌, Bool, true, false, not, ◌&&◌, List,
  [], ◌∷◌, Option, none, some, any,
}
use egop.Contract.Glob.{glob_match}

pub record Origin : Type 0 where
  pub id : Text
  pub version : Text
  pub kind : Text
  pub point : Text
  pub at : ℕ

abbrev pub envelope_version : ℕ
envelope_version = 1

abbrev pub origin_event : Text
origin_event = codes "event"

abbrev pub origin_hook : Text
origin_hook = codes "hook"

abbrev pub origin_call : Text
origin_call = codes "call"

abbrev pub origin_host : Text
origin_host = codes "host"

pub record Event : Type 0 where
  pub type : Text
  pub sub_type : Text
  pub version : ℕ
  pub source : Option Origin
  pub payload : Text
  pub labels : Map Text

pub record EventFilter : Type 0 where
  pub type : Text
  pub sub_type : Text
  pub source_id : Text
  pub source_version : Text
  pub source_kind : Text
  pub labels : Map Text

-- `e.Source == nil || e.Source.X != want`, negated.
unfoldable pub source_is : (Origin → Text) → Option Origin → Text → Bool
source_is part none want = false
source_is part (some o) want = text_eq (part o) want

-- `got, ok := e.Labels[k]; !ok || got != v`, negated.
unfoldable pub label_is : Option Text → Text → Bool
label_is none v = false
label_is (some got) v = text_eq got v

unfoldable pub labels_match : Map Text → Map Text → Bool
labels_match [] given = true
labels_match ((k, v) ∷ wanted) given =
    if not (label_is (lookup k given) v) then false else labels_match wanted given

-- The early returns of Match, in their order.
unfoldable pub event_match : EventFilter → Event → Bool
event_match f e =
    if not (is_empty f.type) && not (glob_match f.type e.type)
    then false
    else if not (is_empty f.sub_type) && not (text_eq e.sub_type f.sub_type)
    then false
    else if not (is_empty f.source_id) && not (source_is (λ o. o.id) e.source f.source_id)
    then false
    else if not (is_empty f.source_version)
        && not (source_is (λ o. o.version) e.source f.source_version)
    then false
    else if not (is_empty f.source_kind) && not (source_is (λ o. o.kind) e.source f.source_kind)
    then false
    else labels_match f.labels e.labels

abbrev pub event_config_updated : Text
event_config_updated = codes "plugin.config.updated"

abbrev pub event_plugin_registered : Text
event_plugin_registered = codes "plugin.registered"

abbrev pub event_plugin_removed : Text
event_plugin_removed = codes "plugin.removed"

abbrev pub event_plugin_replaced : Text
event_plugin_replaced = codes "plugin.replaced"

abbrev pub event_plugin_failed : Text
event_plugin_failed = codes "plugin.failed"

abbrev pub framework_topics : List Text
framework_topics =
    event_config_updated ∷ event_plugin_registered ∷ event_plugin_removed ∷ event_plugin_replaced
    ∷ event_plugin_failed ∷ []

unfoldable pub is_framework_topic : Text → Bool
is_framework_topic topic = any (λ t. text_eq t topic) framework_topics
