-- ===== src/Host/Call/Tests.antt =====
-- A host with one function that answers its input, and asks for an object as input.
use egop.Prelude.{Text, codes, text_eq, lookup, if◌then◌else◌, false, [], ◌∷◌, ◌≡◌, ◌↔◌, refl}
use egop.Schema.{
  Raw, json, object, string, member, no_member, validate, validate_node, node, validate_any_of,
  validate_types, validate_type, type_name, validate_object, validate_members, array_at, object_at,
  type_names, as_object, members, members_fit, fits, elements_fit, members_size, size,
  properties_of, listed, check_properties, check_required,
}
use egop.Host.State.{FnEntry, Host, replied}
use egop.Host.Tests.{both}
use egop.Host.Call.{returned, issues_of, check_output, finish_call, run_checked, call_entry, call}
use egop.Host.Call.Laws.{IsCall, call_iff}

abbrev echo_entry : FnEntry
echo_entry = record {
  plugin_id = codes "p";
  spec = record {
    name = codes "echo";
    description = [];
    input = codes "{}";
    output = [];
    extensions = [];
  };
  provider = λ fname input. replied input;
}

abbrev echo_host : Host
echo_host = record both { fns = (codes "p.echo", echo_entry) ∷ [] }

-- The schema is `{"type":"object"}`, the text "o" an object, and any other a string.
abbrev read_json : Text → Raw
read_json t =
    if text_eq t (codes "{}")
    then json (object (member (codes "type") (string (codes "object")) no_member))
    else if text_eq t (codes "o")
    then json (object no_member)
    else json (string t)

echoes_object :
    call read_json false echo_host (codes "p") (codes "echo") (codes "o") ≡ returned (codes "o")
unfolding call call_entry run_checked finish_call check_output issues_of validate validate_node node
    validate_any_of validate_types validate_type type_name validate_object validate_members array_at
    object_at type_names as_object members members_fit fits elements_fit members_size size
    properties_of listed check_properties check_required lookup text_eq
echoes_object = refl

call_iff_example :
    (call read_json false echo_host (codes "p") (codes "echo") (codes "o") ≡ returned (codes "o"))
    ↔ IsCall read_json false echo_host (codes "p") (codes "echo") (codes "o") (codes "o")
call_iff_example =
    call_iff read_json false echo_host (codes "p") (codes "echo") (codes "o") (codes "o")
