-- ===== src/Contract/Event/Tests.antt =====
-- A filter on a pattern and a source's kind.
use egop.Prelude.{codes, true, [], some, ◌≡◌, ◌↔◌}
use egop.Contract.Event.{Event, EventFilter, origin_event, envelope_version, event_match}
use egop.Contract.Event.Filters.{Accepts, event_match_iff}

abbrev saved : Event
saved = record {
  type = codes "doc.saved";
  sub_type = [];
  version = envelope_version;
  source = some (record {
    id = codes "docs";
    version = [];
    kind = origin_event;
    point = codes "doc.saved";
    at = 7;
  });
  payload = [];
  labels = [];
}

abbrev docs_only : EventFilter
docs_only = record {
  type = codes "doc.*";
  sub_type = [];
  source_id = codes "docs";
  source_version = [];
  source_kind = origin_event;
  labels = [];
}

event_match_iff_example : (event_match docs_only saved ≡ true) ↔ Accepts docs_only saved
event_match_iff_example = event_match_iff docs_only saved
