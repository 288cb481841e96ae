-- ===== src/Contract/Meta.antt =====
-- contract/meta.go: what a plugin declares of itself, and what a slot asks for. A `json.RawMessage`
-- is its bytes. A string type with named constants is a data type with a case for any other word.
use egop.Prelude.{Text, codes, text_eq, any, Map, Bool, List, ◌++◌}

pub record FuncSpec : Type 0 where
  pub name : Text
  pub description : Text
  pub input : Text
  pub output : Text
  pub extensions : Map Text

pub data HookKind : Type 0 where
  unset modify observe : HookKind
  other : Text → HookKind

pub record HookPointSpec : Type 0 where
  pub id : Text
  pub kind : HookKind
  pub description : Text
  pub payload : Text
  pub result : Text
  pub extensions : Map Text

pub record EventTopicSpec : Type 0 where
  pub id : Text
  pub description : Text
  pub payload : Text
  pub extensions : Map Text

pub record ConfigFieldSpec : Type 0 where
  pub key : Text
  pub description : Text
  pub schema : Text
  pub default : Text
  pub readable : Bool
  pub writable : Bool
  pub secret : Bool
  pub extensions : Map Text

pub data DependencyKind : Type 0 where
  init call soft : DependencyKind
  other : Text → DependencyKind

pub record Dependency : Type 0 where
  pub plugin : Text
  pub slot : Text
  pub kind : DependencyKind
  pub min_version : Text
  pub extensions : Map Text

pub record Provides : Type 0 where
  pub points : List Text
  pub hooks : List HookPointSpec
  pub events : List EventTopicSpec
  pub functions : List FuncSpec
  pub capabilities : List Text
  pub config : List ConfigFieldSpec

pub record Requires : Type 0 where
  pub listens : List Text
  pub deps : List Dependency
  pub tools : List Text

pub record Meta : Type 0 where
  pub id : Text
  pub name : Text
  pub version : Text
  pub description : Text
  pub homepage : Text
  pub license : Text
  pub authors : List Text
  pub tags : List Text
  pub provides : Provides
  pub requires : Requires
  pub slot : Text
  pub extensions : Map Text

pub record SlotSpec : Type 0 where
  pub id : Text
  pub doc : Text
  pub provides : List Text
  pub hooks : List Text
  pub events : List Text
  pub functions : List Text
  pub capabilities : List Text
  pub config : List Text
  pub listens : List Text
  pub needs_tools : List Text
  pub needs : List Text
  pub builtin : Bool
  pub extensions : Map Text

unfoldable pub has_capability : Meta → Text → Bool
has_capability m cap = any (λ c. text_eq c cap) m.provides.capabilities

abbrev pub dynamic_prefix : Text
dynamic_prefix = codes "dyn."

unfoldable pub point_id : Text → Text → Text
point_id plugin_id point = dynamic_prefix ++ (plugin_id ++ (codes "." ++ point))

unfoldable pub event_id : Text → Text → Text
event_id plugin_id short = dynamic_prefix ++ (plugin_id ++ (codes "." ++ short))
